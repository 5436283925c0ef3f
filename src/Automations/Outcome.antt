-- ===== src/Automations/Outcome.antt =====
-- From the requests that create, change and delete rules to what a sample of an input does.
use phone_app.Base.{
  ℕ, ◌≤◌, ◌≡◌, ◌⊎◌, inl, inr, Bool, true, some, List, arith, Bool-cases, Option-cases, Text,
}
use phone_app.Base.{get_at}
use phone_app.Ads.State.{Value, Pyads}
use phone_app.Devices.Wire.{truthy}
use phone_app.Notifications.{Notifier}
use phone_app.Automations.{Rule, Automations, becomes, fired}
use phone_app.Automations.Once.{times}
use phone_app.Automations.Accepted.{IsCarriedOut, stored-IsCarriedOut}
use phone_app.Automations.Rules.{System}
use phone_app.Automations.Changes.{find_rule, RuleCall, new_system, rule_run}
use phone_app.Automations.Current.{CurrentAt}
use phone_app.Automations.Fitting.{fits}
use phone_app.Automations.Tables.{find_rule-fits}
use phone_app.Automations.Fires.{is_armed, IsOwned-fires}
use phone_app.Automations.Coherent.{IsCoherent, new_system-IsCoherent, run-IsCoherent}

module _ {W : Type 0} (p : Pyads W) where
  -- A rule of the database that is enabled, waits for the state, and has an action that is carried out.
  abbrev pub IsDue : Bool → Rule → Type 0
  IsDue now rule =
      (rule.enabled ≡ true)
      × (becomes now rule.trigger_state ≡ true)
      × IsCarriedOut p rule.action_device.device_type rule.action_device rule.action_value

  fits-IsCarriedOut :
      (rule : Rule)
      → fits rule ≡ true
      → IsCarriedOut p rule.action_device.device_type rule.action_device rule.action_value
  unfolding fits
  fits-IsCarriedOut rule h =
      stored-IsCarriedOut p rule.action_device.device_type rule.action_device rule.action_value
        (ground arith) (ground arith)

  armed-current :
      (a : Automations) (rules : List Rule) (var : Text) (now : Bool) (k : ℕ)
      → is_armed now var k (get_at k a.automation_subs) a.closures ≡ true
      → CurrentAt k a rules
      → (rule : Rule) × (find_rule k rules ≡ some rule)
        × (rule.enabled ≡ true)
        × (becomes now rule.trigger_state ≡ true)
  armed-current a rules var now k armed current = elim (Option-cases (find_rule k rules)) [
    | inl missing ↦ ground arith
    | inr (rule, there) ↦ (rule, there, ground arith, ground arith)
  ]

  IsCoherent-fires :
      (s : System) (var : Text) (v : Value) (k : ℕ)
      → IsCoherent s
      → (times k (fired s.automations var v) ≤ 1)
        × ((times k (fired s.automations var v) ≡ 0)
            ⊎ ((rule : Rule) × (find_rule k s.rules ≡ some rule) × IsDue (truthy v) rule))
  IsCoherent-fires s var v k h =
      let a = s.automations in
      let count = IsOwned-fires a var v k h.owned in
      elim (Bool-cases (is_armed (truthy v) var k (get_at k a.automation_subs) a.closures)) [
        | inl armed ↦
            let (rule, there, on, waits) =
              armed-current a s.rules var (truthy v) k armed (h.current k) in
            (
              ground arith,
              inr (
                rule,
                there,
                (on, waits, fits-IsCarriedOut rule (find_rule-fits k s.rules there h.fit).0),
              ),
            )
        | inr idle ↦ (ground arith, inl (ground arith))
      ]

module _ {W : Type 0} (n : Notifier W) (p : Pyads W) where
  -- After any sequence of requests, each processed before the next, that create, change and delete the
  -- rules of an apartment that begins with none, a sample of a variable executes no rule twice; a rule
  -- that it executes is in the database, is enabled, waits for the state of the sample, and its action
  -- is carried out: what its value says is what its device is told.
  pub rule_run-fires :
      (mock : Bool) (calls : List RuleCall) (w : W) (var : Text) (v : Value) (k : ℕ)
      → let s = (rule_run n calls (new_system mock) w).0 in
        (times k (fired s.automations var v) ≤ 1)
        × ((times k (fired s.automations var v) ≡ 0)
            ⊎ ((rule : Rule) × (find_rule k s.rules ≡ some rule) × IsDue p (truthy v) rule))
  rule_run-fires mock calls w var v k =
      let s = new_system mock in
      IsCoherent-fires p (rule_run n calls s w).0 var v k
        (run-IsCoherent n calls s w (new_system-IsCoherent mock))
