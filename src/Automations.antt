-- ===== src/Automations.antt =====
-- The automation rules of find_device/plc/registry.py, "when this input does X, do Y to that output":
-- subscriptions, and which rules a sample of an input fires. A callback is a closure of its own for each
-- subscription, known by a fresh number.
pub mod Once
pub mod Owned
pub mod Fires
pub mod Actions
pub mod Rules
pub mod Changes
pub mod Accepted
pub mod Current
pub mod Fitting
pub mod Tables
pub mod Coherent
pub mod Outcome
use phone_app.Base.{
  pop_at, ℕ, zero, suc, ◌+◌, ◌-◌, ◌*◌, ◌≤◌, ◌<◌, ◌≡◌, ◌≢◌, ◌⊎◌, inl, inr, refl, sym, ap, ◌∙◌, Bool,
  true, false, not, ◌&&◌, ◌||◌, Option, none, some, List, [], ◌∷◌, ◌++◌, map, arith, tests, ltb,
  leb, ◌==◌, if◌then◌else◌, Bool-cases, Option-cases, Text, codes, eqb, length,
}
use phone_app.Base.{get_at, put_at, lookup}
use phone_app.Ads.State.{Value, plc_bool}
use phone_app.Devices.Wire.{truthy}
use phone_app.Devices.Inputs.{InputDevice, input_var}
use phone_app.Notifications.{Notifier, Manager, new_manager, subscribe, unsubscribe, or_empty}
use phone_app.Registry.{Registry}
use phone_app.Registry.Loading.{
  Row, type_switch, type_named_switch, type_door_sensor, type_window_sensor, type_motion_sensor,
}

-- `AutomationRule`
pub record Rule : Type 0 where
  pub rule_id : ℕ
  pub name : Text
  pub enabled : Bool
  pub trigger_device : Row
  pub trigger_state : Bool
  pub action_device : Row
  pub action_value : Text

-- `_automation_subs` with the manager; `closures` is what each callback holds: its state and its rule.
pub record Automations : Type 0 where
  pub notifications : Manager
  pub automation_subs : List (ℕ × (Text × ℕ))
  pub closures : List (ℕ × (Bool × ℕ))
  pub next_callback : ℕ

unfoldable pub new_automations : Bool → Automations
new_automations mock = record {
  notifications = new_manager mock;
  automation_subs = [];
  closures = [];
  next_callback = 0;
}

abbrev pub at_index : {A : Type 0} → Option ℕ → List (ℕ × A) → Option A
at_index none d = none
at_index (some n) d = get_at n d

-- `_trigger_object`, on the identity that `_subscribe_automation` picks.
unfoldable pub trigger_object : Row → Registry → Option InputDevice
trigger_object t r = elim t.device_type [
  | type_named_switch ↦ lookup t.gvl_name r.named_switches
  | type_switch ↦ at_index t.channel_or_index r.switches
  | type_motion_sensor ↦ at_index t.channel_or_index r.motion_sensors
  | type_door_sensor ↦ at_index t.channel_or_index r.door_sensors
  | type_window_sensor ↦ at_index t.channel_or_index r.window_sensors
  | _ ↦ none
]

-- `AutomationRule.objects.filter(pk=rule_id, enabled=True).first()`
unfoldable pub enabled_rule : ℕ → List Rule → Option Rule
enabled_rule k [] = none
enabled_rule k (rule ∷ rules) =
    if rule.rule_id == k && rule.enabled then some rule else enabled_rule k rules

-- The subscribed variables of the callbacks, `self._subscriptions.get(var, [])`.
abbrev pub callbacks_of : Text → Manager → List ℕ
callbacks_of var m = or_empty (lookup var m.subscriptions)

module _ {W : Type 0} (n : Notifier W) where
  -- The end of `_subscribe_automation`: only a subscription that succeeded is noted.
  unfoldable pub note_subscription :
      ℕ → Text → ℕ → Automations → Bool × Manager × W → Bool × Automations × W
  note_subscription k var cb a (true, m, w) = (
    true,
    record a { notifications = m; automation_subs = put_at k (var, cb) a.automation_subs },
    w,
  )
  note_subscription k var cb a (false, m, w) = (false, record a { notifications = m }, w)

  -- `_subscribe_automation` from the point where it makes its closure.
  unfoldable pub subscribe_to : Rule → Text → Automations → W → Bool × Automations × W
  subscribe_to rule var a w =
      let cb = a.next_callback in
      let b = record a {
        closures = put_at cb (rule.trigger_state, rule.rule_id) a.closures;
        next_callback = cb + 1;
      } in
      note_subscription rule.rule_id var cb b (subscribe n var plc_bool cb 200 a.notifications w)

  unfoldable pub subscribe_automation : Rule → Registry → Automations → W → Bool × Automations × W
  subscribe_automation rule r a w = elim (trigger_object rule.trigger_device r) [
    | none ↦ (false, a, w)
    | some trigger ↦ subscribe_to rule (input_var trigger.kind) a w
  ]

  -- `remove_automation`
  unfoldable pub remove_automation : ℕ → Automations → W → Automations × W
  remove_automation k a w = elim (get_at k a.automation_subs) [
    | none ↦ (a, w)
    | some entry ↦
        let (m, u) = unsubscribe n entry.0 (some entry.1) a.notifications w in
        (record a { notifications = m; automation_subs = pop_at k a.automation_subs }, u)
  ]

  -- `reload_automation`, on the rules of the database.
  unfoldable pub reload_automation : ℕ → List Rule → Registry → Automations → W → Automations × W
  reload_automation k rules r a w =
      let (b, u) = remove_automation k a w in
      elim (enabled_rule k rules) [
        | none ↦ (b, u)
        | some rule ↦ let (_, c, v) = subscribe_automation rule r b u in (c, v)
      ]

  -- `_load_automations`, on the rules of the apartment.
  unfoldable pub load_automations : List Rule → Registry → Automations → W → Automations × W
  load_automations [] r a w = (a, w)
  load_automations (rule ∷ rules) r a w =
      if rule.enabled
      then (let (_, b, u) = subscribe_automation rule r a w in load_automations rules r b u)
      else load_automations rules r a w

-- `_cb`: the rule that it executes, where the value has become the state that it waits for.
abbrev pub becomes : Bool → Bool → Bool
becomes now expected = if now then expected else not expected

abbrev pub called : Bool → Option (Bool × ℕ) → List ℕ
called now none = []
called now (some (expected, k)) = if becomes now expected then k ∷ [] else []

unfoldable pub fired_by : Bool → List (ℕ × (Bool × ℕ)) → List ℕ → List ℕ
fired_by now closures [] = []
fired_by now closures (cb ∷ cbs) = called now (get_at cb closures) ++ fired_by now closures cbs

-- The rules for which `_dispatch_loop` calls `_execute_automation` on a sample of a variable, in their
-- order; what that call does, its look at the enabled row included, is in Automations.Actions.
unfoldable pub fired : Automations → Text → Value → List ℕ
unfolding fired_by
fired a var v = fired_by (truthy v) a.closures (callbacks_of var a.notifications)

-- The calls of the automation methods on one registry; each finds the rules and the devices of its time.
pub data AutomationCall : Type 0 where
  call_reload : ℕ → List Rule → Registry → AutomationCall
  call_remove : ℕ → AutomationCall

module _ {W : Type 0} (n : Notifier W) where
  unfoldable pub automation_step : AutomationCall → Automations → W → Automations × W
  automation_step (call_reload k rules r) a w = reload_automation n k rules r a w
  automation_step (call_remove k) a w = remove_automation n k a w

  unfoldable pub automation_run : List AutomationCall → Automations → W → Automations × W
  unfolding automation_step
  automation_run [] a w = (a, w)
  automation_run (call ∷ calls) a w =
      let (b, u) = automation_step call a w in automation_run calls b u
