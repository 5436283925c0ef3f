-- ===== src/Automations/Fires.antt =====
-- For which rules a sample of an input calls `_execute_automation`: each rule that is subscribed to it,
-- once.
use phone_app.Base.{
  ℕ, ◌≡◌, inl, inr, refl, Bool, true, false, ◌&&◌, Option, none, some, List, [], ◌∷◌, arith, ltb,
  ◌==◌, if◌then◌else◌, Option-cases, Text, eqb,
}
use phone_app.Base.{get_at, eqb_sound}
use phone_app.Ads.State.{Value}
use phone_app.Devices.Wire.{truthy}
use phone_app.Notifications.{Notifier}
use phone_app.Registry.{Registry}
use phone_app.Automations.{
  Rule, Automations, new_automations, callbacks_of, load_automations, becomes, called, fired_by,
  fired, AutomationCall, automation_run,
}
use phone_app.Automations.Once.{times, times-append}
use phone_app.Automations.Owned.{
  free, IsOwned, distinct, ids, new_automations-IsOwned, load-IsOwned, run-IsOwned,
}

-- The callback is one of the rule, and waits for the state.
abbrev waits : Bool → ℕ → Option (Bool × ℕ) → Bool
waits now k none = false
waits now k (some (expected, j)) = j == k && becomes now expected

-- The entry of a rule is for the variable, and its callback waits for the state.
abbrev pub is_armed : Bool → Text → ℕ → Option (Text × ℕ) → List (ℕ × (Bool × ℕ)) → Bool
is_armed now var k none closures = false
is_armed now var k (some (u, d)) closures = eqb u var && waits now k (get_at d closures)

called-times :
    (now : Bool) (k : ℕ) (o : Option (Bool × ℕ))
    → times k (called now o) ≡ (if waits now k o then 1 else 0)
called-times now k none = refl
called-times now k (some (expected, j)) = ground arith

-- A list of callbacks of which at most one fires the rule.
fired_by-times :
    (now : Bool) (k d : ℕ) (closures : List (ℕ × (Bool × ℕ))) (cbs : List ℕ)
    → ((c : ℕ) → ltb 0 (times c cbs) ≡ true → waits now k (get_at c closures) ≡ true → c ≡ d)
    → times k (fired_by now closures cbs)
      ≡ (if waits now k (get_at d closures) then times d cbs else 0)
unfolding fired_by
fired_by-times now k d closures [] only = ground arith
fired_by-times now k d closures (c ∷ cbs) only = ground (
  arith,
  times-append k (called now (get_at c closures)) (fired_by now closures cbs),
  called-times now k (get_at c closures),
  only c,
  fired_by-times now k d closures cbs λ e in_rest fires. only e (ground arith) fires,
)

pub IsOwned-fires :
    (a : Automations) (var : Text) (v : Value) (k : ℕ)
    → IsOwned a
    → times k (fired a var v)
      ≡ (if is_armed (truthy v) var k (get_at k a.automation_subs) a.closures then 1 else 0)
unfolding fired
IsOwned-fires a var v k h = elim (Option-cases (get_at k a.automation_subs)) [
  | inl nothing ↦ ground (
    arith,
    h.counted var 0,
    fired_by-times (truthy v) k 0 a.closures (callbacks_of var a.notifications)
        λ c in_list waiting. ground (arith, h.counted var c),
  )
  | inr ((u, d), entry) ↦ ground (
    arith,
    h.counted var d,
    h.kept k,
    eqb_sound u var,
    fired_by-times (truthy v) k d a.closures (callbacks_of var a.notifications)
        λ c in_list waiting. ground (arith, h.counted var c),
  )
]

none_claimed : (mock : Bool) (ks : List ℕ) → free ks (new_automations mock).automation_subs ≡ true
unfolding new_automations
none_claimed mock [] = refl
none_claimed mock (k ∷ ks) = ground (arith, none_claimed mock ks)

module _ {W : Type 0} (n : Notifier W) where
  -- After the rules of an apartment, whose ids differ, were loaded and then reloaded and removed by any
  -- sequence of calls, one call after the other, a sample of a variable calls `_execute_automation` exactly
  -- once for each rule that has an entry for that variable and waits for the state of the sample, and for
  -- no other rule.
  pub each_rule_fires_once :
      (mock : Bool) (rules : List Rule) (r : Registry) (calls : List AutomationCall) (w : W)
      → (var : Text) (v : Value) (k : ℕ) → distinct (ids rules) ≡ true
      → let (loaded, u) = load_automations n rules r (new_automations mock) w in
        let a = (automation_run n calls loaded u).0 in
        times k (fired a var v)
        ≡ (if is_armed (truthy v) var k (get_at k a.automation_subs) a.closures then 1 else 0)
  each_rule_fires_once mock rules r calls w var v k differ =
      let (loaded, u) = load_automations n rules r (new_automations mock) w in
      let start =
        load-IsOwned n rules r (new_automations mock) w (new_automations-IsOwned mock) differ in
      IsOwned-fires (automation_run n calls loaded u).0 var v k
        (run-IsOwned n calls loaded u (start (none_claimed mock (ids rules))))
