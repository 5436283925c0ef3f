-- ===== src/Automations/Coherent.antt =====
-- The rules of an apartment from the request to the sample of an input: what every sequence of requests
-- keeps, and which rules a sample then executes.
use phone_app.Base.{
  either_branch, ℕ, ◌≡◌, ◌⊎◌, inl, inr, refl, Bool, true, Option, none, some, List, [], ◌∷◌, ◌++◌,
  arith, Option-cases,
}
use phone_app.Notifications.{Notifier}
use phone_app.Registry.{Registry}
use phone_app.Registry.Loading.{Row}
use phone_app.Automations.{
  call_reload, automation_step, Rule, Automations, new_automations, reload_automation,
}
use phone_app.Automations.Owned.{
  IsOwned, ids, distinct, new_automations-IsOwned, step-IsOwned, remove-IsOwned,
}
use phone_app.Automations.Rules.{
  CreateRequest, PatchRequest, Reply, answered, refused, deleted, System, checked_rule, save_new,
  create_rule,
}
use phone_app.Automations.Changes.{
  patch_found, find_rule, save_rule, delete_rule, patched, hot_load, save_patched, patch_rule,
  delete, RuleCall, post_rule, patch, remove, new_system, rule_step, rule_run,
}
use phone_app.Automations.Current.{CurrentAt, reload-CurrentAt, remove-CurrentAt}
use phone_app.Automations.Fitting.{fits, all_fit, all_below, checked_rule-fits, patched-fits}
use phone_app.Automations.Tables.{
  all_below-times, find_rule-append, append-kept, save_rule-kept, find_rule-save_rule,
  delete_rule-kept, find_rule-delete_rule, find_rule-fits,
}

-- The rules fit, their ids differ and are below the next, and the entries of the registry follow them.
pub record IsCoherent (s : System) : Type 0 where
  pub fit : all_fit s.rules ≡ true
  pub below : all_below s.next_rule s.rules ≡ true
  pub differ : distinct (ids s.rules) ≡ true
  pub owned : IsOwned s.automations
  pub current : (j : ℕ) → CurrentAt j s.automations s.rules

pub new_system-IsCoherent : (mock : Bool) → IsCoherent (new_system mock)
unfolding new_system new_automations
new_system-IsCoherent mock = record {
  fit = refl;
  below = refl;
  differ = refl;
  owned = new_automations-IsOwned mock;
  current = λ j. refl;
}

module _ {W : Type 0} (n : Notifier W) where
  reload-IsOwned :
      (k : ℕ) (rules : List Rule) (r : Registry) (a : Automations) (w : W)
      → IsOwned a
      → IsOwned (reload_automation n k rules r a w).0
  unfolding automation_step
  reload-IsOwned k rules r a w h = step-IsOwned n (call_reload k rules r) a w h

  save_new-IsCoherent :
      (rule : Rule) (r : Registry) (s : System) (w : W)
      → fits rule ≡ true
      → rule.rule_id ≡ s.next_rule
      → IsCoherent s
      → IsCoherent (save_new n r s w (answered rule)).1
  unfolding save_new
  save_new-IsCoherent rule r s w good same h =
      let rules = s.rules ++ rule ∷ [] in
      let (f, b, d) = append-kept s.next_rule s.rules rule same good h.fit h.below h.differ in
      let new = all_below-times s.next_rule rule.rule_id s.rules h.below (omega arith) in
      record {
        fit = f;
        below = b;
        differ = d;
        owned = reload-IsOwned rule.rule_id rules r s.automations w h.owned;
        current = λ j.
            reload-CurrentAt n rule.rule_id j rules r s.automations w h.owned d
              (ground (arith, find_rule-append j s.rules rule new, h.current j));
      }

  create_rule-IsCoherent :
      (q : CreateRequest) (rows : List Row) (r : Registry) (s : System) (w : W)
      → IsCoherent s
      → IsCoherent (create_rule n q rows r s w).1
  unfolding create_rule save_new
  create_rule-IsCoherent q rows r s w h = go (checked_rule q s.next_rule rows) refl
    where
      go :
          (reply : Reply)
          → checked_rule q s.next_rule rows ≡ reply
          → IsCoherent (save_new n r s w reply).1
      go (answered rule) e =
          let (good, same) = checked_rule-fits q s.next_rule rows e in
          save_new-IsCoherent rule r s w good same h
      go (refused status message) e = h
      go (deleted message) e = h

  hot_load-IsOwned :
      (rule : Rule) (rules : List Rule) (r : Registry) (a : Automations) (w : W)
      → IsOwned a
      → IsOwned (hot_load n rule rules r a w).0
  unfolding hot_load
  hot_load-IsOwned rule rules r a w h =
      either_branch {A = Automations × W} (λ x. IsOwned x.0) rule.enabled _ _
        (reload-IsOwned rule.rule_id rules r a w h) (remove-IsOwned n rule.rule_id a w h).0

  hot_load-CurrentAt :
      (rule : Rule) (rules : List Rule) (r : Registry) (a : Automations) (w : W) (j : ℕ)
      → IsOwned a
      → distinct (ids rules) ≡ true
      → (rule.rule_id ≡ j) ⊎ CurrentAt j a rules
      → CurrentAt j (hot_load n rule rules r a w).0 rules
  unfolding hot_load
  hot_load-CurrentAt rule rules r a w j h differ current =
      either_branch {A = Automations × W} (λ x. CurrentAt j x.0 rules) rule.enabled _ _
        (reload-CurrentAt n rule.rule_id j rules r a w h differ current)
        (remove-CurrentAt n rule.rule_id j a w rules current)

  save_patched-IsCoherent :
      (rule : Rule) (r : Registry) (s : System) (w : W)
      → fits rule ≡ true
      → IsCoherent s
      → IsCoherent (save_patched n r s w (answered rule)).1
  unfolding save_patched
  save_patched-IsCoherent rule r s w good h =
      let rules = save_rule rule s.rules in
      let (f, b, d) = save_rule-kept s.next_rule rule s.rules good h.fit h.below h.differ in
      record {
        fit = f;
        below = b;
        differ = d;
        owned = hot_load-IsOwned rule rules r s.automations w h.owned;
        current = λ j.
            hot_load-CurrentAt rule rules r s.automations w j h.owned d
              (ground (arith, find_rule-save_rule j rule s.rules, h.current j));
      }

  patch_rule-IsCoherent :
      (k : ℕ) (q : PatchRequest) (r : Registry) (s : System) (w : W)
      → IsCoherent s
      → IsCoherent (patch_rule n k q r s w).1
  unfolding patch_rule patch_found save_patched
  patch_rule-IsCoherent k q r s w h = go (find_rule k s.rules) refl
    where
      saved :
          (rule : Rule) (reply : Reply)
          → fits rule ≡ true
          → patched q rule ≡ reply
          → IsCoherent (save_patched n r s w reply).1
      saved rule (answered new) good e =
          save_patched-IsCoherent new r s w (patched-fits q rule e good).0 h
      saved rule (refused status message) good e = h
      saved rule (deleted message) good e = h

      go : (o : Option Rule) → find_rule k s.rules ≡ o → IsCoherent (patch_found n r s w q o).1
      go none e = h
      go (some rule) e = saved rule (patched q rule) (find_rule-fits k s.rules e h.fit).0 refl

  delete-IsCoherent : (k : ℕ) (s : System) (w : W) → IsCoherent s → IsCoherent (delete n k s w).1
  unfolding delete
  delete-IsCoherent k s w h = elim (Option-cases (find_rule k s.rules)) [
    | inl missing ↦ rw (delete, missing) h
    | inr (rule, there) ↦
        let rules = delete_rule k s.rules in
        let (f, b, d) = delete_rule-kept s.next_rule k s.rules h.fit h.below h.differ in
        rw (delete, there)
          (record {
            fit = f;
            below = b;
            differ = d;
            owned = (remove-IsOwned n k s.automations w h.owned).0;
            current = λ j.
                remove-CurrentAt n k j s.automations w rules
                  (ground (arith, find_rule-delete_rule j k s.rules, h.current j));
          })
  ]

  pub run-IsCoherent :
      (calls : List RuleCall) (s : System) (w : W)
      → IsCoherent s
      → IsCoherent (rule_run n calls s w).0
  unfolding rule_run rule_step
  run-IsCoherent [] s w h = h
  run-IsCoherent (post_rule q rows r ∷ calls) s w h =
      let (_, t, u) = create_rule n q rows r s w in
      run-IsCoherent calls t u (create_rule-IsCoherent q rows r s w h)
  run-IsCoherent (patch k q r ∷ calls) s w h =
      let (_, t, u) = patch_rule n k q r s w in
      run-IsCoherent calls t u (patch_rule-IsCoherent k q r s w h)
  run-IsCoherent (remove k ∷ calls) s w h =
      let (_, t, u) = delete n k s w in run-IsCoherent calls t u (delete-IsCoherent k s w h)
