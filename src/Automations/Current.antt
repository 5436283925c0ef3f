-- ===== src/Automations/Current.antt =====
-- The entries of the automation rules follow the rules of the database: an entry is one of an enabled
-- rule, and its callback waits for the state of the rule.
use phone_app.Base.{
  get_at-pop_at, ℕ, ◌≡◌, ◌⊎◌, inl, inr, ap, ◌∙◌, Bool, true, false, ◌&&◌, Option, none, some, List,
  [], ◌∷◌, arith, ltb, Option-cases, Text,
}
use phone_app.Base.{get_at, get_at-put_at}
use phone_app.Devices.Inputs.{input_var}
use phone_app.Notifications.{Notifier}
use phone_app.Registry.{Registry}
use phone_app.Automations.{
  Rule, Automations, trigger_object, enabled_rule, note_subscription, subscribe_to,
  subscribe_automation, remove_automation, reload_automation, becomes,
}
use phone_app.Automations.Once.{times}
use phone_app.Automations.Owned.{IsOwned, callback_of, ids, distinct, remove-IsOwned}
use phone_app.Automations.Changes.{find_rule}

abbrev waits_for : Bool → Option (Bool × ℕ) → Bool
waits_for state none = false
waits_for state (some (expected, k)) = becomes expected state

abbrev entry_current : Option (Text × ℕ) → List (ℕ × (Bool × ℕ)) → Option Rule → Bool
entry_current none closures rule = true
entry_current (some (u, d)) closures none = false
entry_current (some (u, d)) closures (some rule) =
    rule.enabled && waits_for rule.trigger_state (get_at d closures)

abbrev pub CurrentAt : ℕ → Automations → List Rule → Type 0
CurrentAt j a rules =
    entry_current (get_at j a.automation_subs) a.closures (find_rule j rules) ≡ true

enabled_rule-in :
    (k : ℕ) (rules : List Rule) {rule : Rule}
    → enabled_rule k rules ≡ some rule
    → ltb 0 (times k (ids rules)) ≡ true
unfolding enabled_rule
enabled_rule-in k [] e = ground arith
enabled_rule-in k (first ∷ rules) {rule} e = ground (arith, enabled_rule-in k rules {rule = rule})

-- The only rule with its id.
enabled_rule-find_rule :
    (k : ℕ) (rules : List Rule) {rule : Rule}
    → distinct (ids rules) ≡ true
    → enabled_rule k rules ≡ some rule
    → (find_rule k rules ≡ some rule) × (rule.enabled ≡ true) × (rule.rule_id ≡ k)
unfolding enabled_rule find_rule
enabled_rule-find_rule k [] differ e = ground arith
enabled_rule-find_rule k (first ∷ rules) {rule} differ e =
    ground
      (arith, enabled_rule-in k rules {rule = rule}, enabled_rule-find_rule k rules {rule = rule})

module _ {W : Type 0} (n : Notifier W) where
  -- The rule itself has no entry then, and the others keep theirs.
  pub remove-CurrentAt :
      (k j : ℕ) (a : Automations) (w : W) (rules : List Rule)
      → (k ≡ j) ⊎ CurrentAt j a rules
      → CurrentAt j (remove_automation n k a w).0 rules
  unfolding remove_automation
  remove-CurrentAt k j a w rules h = elim (Option-cases (get_at k a.automation_subs)) [
    | inl nothing ↦ ground arith
    | inr ((u, d), entry) ↦ ground (arith, get_at-pop_at k j a.automation_subs)
  ]

  subscribe_to-CurrentAt :
      (rule : Rule) (var : Text) (a : Automations) (w : W) (j : ℕ) (rules : List Rule)
      → IsOwned a
      → rule.enabled ≡ true
      → find_rule rule.rule_id rules ≡ some rule
      → CurrentAt j a rules
      → CurrentAt j (subscribe_to n rule var a w).1 rules
  unfolding subscribe_to note_subscription
  subscribe_to-CurrentAt rule var a w j rules h on found current =
      let cb = a.next_callback in
      ground (
        arith,
        h.kept j,
        h.fresh cb,
        get_at-put_at rule.rule_id j (var, cb) a.automation_subs,
        get_at-put_at cb cb (rule.trigger_state, rule.rule_id) a.closures,
        get_at-put_at cb (callback_of (get_at j a.automation_subs))
            (rule.trigger_state, rule.rule_id) a.closures,
      )

  pub reload-CurrentAt :
      (k j : ℕ) (rules : List Rule) (r : Registry) (a : Automations) (w : W)
      → IsOwned a
      → distinct (ids rules) ≡ true
      → (k ≡ j) ⊎ CurrentAt j a rules
      → CurrentAt j (reload_automation n k rules r a w).0 rules
  unfolding reload_automation subscribe_automation
  reload-CurrentAt k j rules r a w h differ current =
      let (b, u) = remove_automation n k a w in
      let (owned, gone) = remove-IsOwned n k a w h in
      let others = remove-CurrentAt k j a w rules current in
      elim (Option-cases (enabled_rule k rules)) [
        | inl missing ↦ ground (arith, others)
        | inr (rule, there) ↦ elim (Option-cases (trigger_object rule.trigger_device r)) [
          | inl absent ↦ ground (arith, others)
          | inr (d, exists) ↦
              let (found, on, same) = enabled_rule-find_rule k rules {rule = rule} differ there in
              ground (
                arith,
                subscribe_to-CurrentAt rule (input_var d.kind) b u j rules owned on
                    (ap (λ i. find_rule i rules) same ∙ found) others,
              )
        ]
      ]
