-- ===== src/Automations/Owned.antt =====
-- The entries of the automation rules and the callbacks of the manager agree, whatever is called.
use phone_app.Base.{
  get_at-pop_at, is_some, ℕ, ◌≤◌, ◌≡◌, inl, inr, refl, Bool, true, false, not, ◌&&◌, Option, none,
  some, List, [], ◌∷◌, arith, ◌==◌, if◌then◌else◌, Option-cases, Text, eqb,
}
use phone_app.Base.{get_at, put_at, get_at-put_at}
use phone_app.Ads.State.{plc_bool}
use phone_app.Devices.Inputs.{input_var}
use phone_app.Notifications.{Notifier, new_manager}
use phone_app.Registry.{Registry}
use phone_app.Automations.{
  call_reload, call_remove, AutomationCall, automation_run, automation_step, load_automations, Rule,
  Automations, new_automations, callbacks_of, trigger_object, enabled_rule, note_subscription,
  subscribe_to, subscribe_automation, remove_automation, reload_automation,
}
use phone_app.Automations.Once.{times, subscribe-times, unsubscribe-times}

-- The entry of a rule is this variable with this callback.
abbrev pub owns : Text → ℕ → Option (Text × ℕ) → ℕ
owns v c none = 0
owns v c (some (u, d)) = if eqb u v && d == c then 1 else 0

abbrev pub holds : Text → ℕ → Option (Bool × ℕ) → List (ℕ × (Text × ℕ)) → ℕ
holds v c none subs = 0
holds v c (some (s, k)) subs = owns v c (get_at k subs)

abbrev pub is_of : ℕ → Option (Bool × ℕ) → Bool
is_of k none = false
is_of k (some (s, j)) = j == k

abbrev pub linked : ℕ → Option (Text × ℕ) → List (ℕ × (Bool × ℕ)) → Bool
linked k none closures = true
linked k (some (u, d)) closures = is_of k (get_at d closures)

abbrev pub rule_of : Option (Bool × ℕ) → ℕ
rule_of none = 0
rule_of (some (s, k)) = k

abbrev pub callback_of : Option (Text × ℕ) → ℕ
callback_of none = 0
callback_of (some (u, d)) = d

-- A callback stands once with a variable if its rule has both as its entry, and else nowhere; the
-- callback of an entry is one of its rule; callbacks that are still to come are not in use.
pub record IsOwned (a : Automations) : Type 0 where
  pub counted :
      (v : Text) (c : ℕ)
      → times c (callbacks_of v a.notifications) ≡ holds v c (get_at c a.closures) a.automation_subs
  pub fresh : (c : ℕ) → a.next_callback ≤ c → get_at c a.closures ≡ none
  pub kept : (k : ℕ) → linked k (get_at k a.automation_subs) a.closures ≡ true

pub new_automations-IsOwned : (mock : Bool) → IsOwned (new_automations mock)
unfolding new_automations new_manager
new_automations-IsOwned mock = record {
  counted = λ v c. refl;
  fresh = λ c le. refl;
  kept = λ k. refl;
}

module _ {W : Type 0} (n : Notifier W) where
  pub remove-IsOwned :
      (k : ℕ) (a : Automations) (w : W)
      → IsOwned a
      → IsOwned (remove_automation n k a w).0
        × (get_at k (remove_automation n k a w).0.automation_subs ≡ none)
  unfolding remove_automation
  remove-IsOwned k a w h = elim (Option-cases (get_at k a.automation_subs)) [
    | inl nothing ↦ rw (remove_automation, nothing) (h, nothing)
    | inr ((u, d), entry) ↦
        rw (remove_automation, entry)
          (
            record {
              counted = λ v c. ground (
                arith,
                unsubscribe-times n u v d c a.notifications w,
                h.counted v c,
                h.kept k,
                get_at-pop_at k (rule_of (get_at c a.closures)) a.automation_subs,
              );
              fresh = h.fresh;
              kept = λ j. ground (arith, h.kept j, get_at-pop_at k j a.automation_subs);
            },
            ground (arith, get_at-pop_at k k a.automation_subs),
          )
  ]

  subscribe_to-IsOwned :
      (rule : Rule) (var : Text) (a : Automations) (w : W)
      → IsOwned a
      → get_at rule.rule_id a.automation_subs ≡ none
      → IsOwned (subscribe_to n rule var a w).1
  unfolding subscribe_to note_subscription
  subscribe_to-IsOwned rule var a w h free =
      let cb = a.next_callback in
      let k = rule.rule_id in
      record {
        counted = λ v c. ground (
          arith,
          h.counted v c,
          h.counted var cb,
          h.fresh cb,
          subscribe-times n var v plc_bool cb c 200 a.notifications w,
          get_at-put_at cb c (rule.trigger_state, k) a.closures,
          get_at-put_at k (rule_of (get_at c a.closures)) (var, cb) a.automation_subs,
          get_at-put_at k k (var, cb) a.automation_subs,
        );
        fresh = λ c le.
            ground (arith, h.fresh c, get_at-put_at cb c (rule.trigger_state, k) a.closures);
        kept = λ j. ground (
          arith,
          h.kept j,
          h.fresh cb,
          get_at-put_at k j (var, cb) a.automation_subs,
          get_at-put_at cb cb (rule.trigger_state, k) a.closures,
          get_at-put_at cb (callback_of (get_at j a.automation_subs)) (rule.trigger_state, k)
              a.closures,
        );
      }

enabled_rule-rule_id :
    (k : ℕ) (rules : List Rule) {rule : Rule} → enabled_rule k rules ≡ some rule → rule.rule_id ≡ k
unfolding enabled_rule
enabled_rule-rule_id k [] e = ground arith
enabled_rule-rule_id k (first ∷ rules) {rule} e =
    ground (arith, enabled_rule-rule_id k rules {rule = rule})

-- The ids of the rules differ from one another, and have no entry.
abbrev pub distinct : List ℕ → Bool
distinct [] = true
distinct (k ∷ ks) = times k ks == 0 && distinct ks

abbrev pub free : {A : Type 0} → List ℕ → List (ℕ × A) → Bool
free [] subs = true
free (k ∷ ks) subs = not (is_some (get_at k subs)) && free ks subs

abbrev pub ids : List Rule → List ℕ
ids [] = []
ids (rule ∷ rules) = rule.rule_id ∷ ids rules

free-put_at :
    {A : Type 0} (k : ℕ) (a : A) (ks : List ℕ) (subs : List (ℕ × A))
    → times k ks ≡ 0
    → free ks subs ≡ true
    → free ks (put_at k a subs) ≡ true
free-put_at k a [] subs new h = refl
free-put_at k a (j ∷ ks) subs new h =
    ground (arith, free-put_at k a ks subs, get_at-put_at k j a subs)

module _ {W : Type 0} (n : Notifier W) where
  subscribe-IsOwned :
      (rule : Rule) (r : Registry) (a : Automations) (w : W)
      → IsOwned a
      → get_at rule.rule_id a.automation_subs ≡ none
      → IsOwned (subscribe_automation n rule r a w).1
  unfolding subscribe_automation
  subscribe-IsOwned rule r a w h new = elim (Option-cases (trigger_object rule.trigger_device r)) [
    | inl missing ↦ rw (subscribe_automation, missing) h
    | inr (d, there) ↦
        rw (subscribe_automation, there) (subscribe_to-IsOwned n rule (input_var d.kind) a w h new)
  ]

  subscribe_automation-free :
      (rule : Rule) (r : Registry) (a : Automations) (w : W) (ks : List ℕ)
      → times rule.rule_id ks ≡ 0
      → free ks a.automation_subs ≡ true
      → free ks (subscribe_automation n rule r a w).1.automation_subs ≡ true
  unfolding subscribe_automation subscribe_to note_subscription
  subscribe_automation-free rule r a w ks new h =
      elim (Option-cases (trigger_object rule.trigger_device r)) [
        | inl missing ↦ ground arith
        | inr (d, there) ↦ ground (
          arith,
          free-put_at rule.rule_id (input_var d.kind, a.next_callback) ks a.automation_subs,
        )
      ]

  pub load-IsOwned :
      (rules : List Rule) (r : Registry) (a : Automations) (w : W)
      → IsOwned a
      → distinct (ids rules) ≡ true
      → free (ids rules) a.automation_subs ≡ true
      → IsOwned (load_automations n rules r a w).0
  unfolding load_automations
  load-IsOwned [] r a w h differ new = h
  load-IsOwned (rule ∷ rules) r a w h differ new =
      let (_, b, u) = subscribe_automation n rule r a w in
      ground (
        arith,
        subscribe-IsOwned rule r a w h,
        subscribe_automation-free rule r a w (ids rules),
        load-IsOwned rules r b u,
        load-IsOwned rules r a w h,
      )

  pub step-IsOwned :
      (call : AutomationCall) (a : Automations) (w : W)
      → IsOwned a
      → IsOwned (automation_step n call a w).0
  unfolding automation_step reload_automation
  step-IsOwned (call_remove k) a w h = (remove-IsOwned n k a w h).0
  step-IsOwned (call_reload k rules r) a w h =
      let (b, u) = remove_automation n k a w in
      let (owned, gone) = remove-IsOwned n k a w h in
      elim (Option-cases (enabled_rule k rules)) [
        | inl missing ↦ ground (arith, owned)
        | inr (rule, there) ↦ ground (
          arith,
          owned,
          gone,
          enabled_rule-rule_id k rules {rule = rule} there,
          subscribe-IsOwned rule r b u owned,
        )
      ]

  pub run-IsOwned :
      (calls : List AutomationCall) (a : Automations) (w : W)
      → IsOwned a
      → IsOwned (automation_run n calls a w).0
  unfolding automation_run
  run-IsOwned [] a w h = h
  run-IsOwned (call ∷ calls) a w h =
      let (b, u) = automation_step n call a w in run-IsOwned calls b u (step-IsOwned call a w h)
