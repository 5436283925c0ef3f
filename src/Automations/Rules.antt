-- ===== src/Automations/Rules.antt =====
-- find_device/automation_views.py: creating, changing and deleting the rules of one apartment. `rows` are
-- the devices of the apartment.
use phone_app.Json.{json_text_or_empty, json_flag, Json}
use phone_app.Base.{
  ℕ, ◌+◌, Bool, true, false, not, ◌&&◌, Option, none, some, List, [], ◌∷◌, ◌++◌, leb, ◌==◌,
  if◌then◌else◌, Text, codes, eqb,
}
use phone_app.Base.{is_in, lower, strip, parse_int}
use phone_app.Base.Int.{ℤ, pos, negsuc}
use phone_app.Notifications.{Notifier}
use phone_app.Registry.{Registry}
use phone_app.Registry.Loading.{
  DeviceType, type_dali, type_relay, type_curtain, type_appliance, type_toggle, type_switch,
  type_motion_sensor, type_door_sensor, type_window_sensor, type_named_switch, Row,
  named_relay_readonly,
}
use phone_app.Automations.{Rule, Automations, reload_automation}

abbrev pub is_trigger_type : DeviceType → Bool
is_trigger_type type_switch = true
is_trigger_type type_motion_sensor = true
is_trigger_type type_door_sensor = true
is_trigger_type type_window_sensor = true
is_trigger_type type_named_switch = true
is_trigger_type _ = false

abbrev pub is_action_type : DeviceType → Bool
is_action_type type_dali = true
is_action_type type_relay = true
is_action_type type_curtain = true
is_action_type type_appliance = true
is_action_type type_toggle = true
is_action_type _ = false

abbrev pub is_type_toggle : DeviceType → Bool
is_type_toggle type_toggle = true
is_type_toggle _ = false

-- `_is_writable_action`
unfoldable pub is_writable_action : Row → Bool
is_writable_action d =
    if is_type_toggle d.device_type then not (is_in d.gvl_name named_relay_readonly) else true

abbrev pub in_percent : ℤ → Bool
in_percent (pos n) = leb n 100
in_percent (negsuc n) = false

abbrev pub percent_error : Option ℤ → Option Text
percent_error none = some (codes "action_value must be an integer 0-100 for a DALI action")
percent_error (some pct) =
    if in_percent pct then none else some (codes "action_value must be 0-100 for a DALI action")

abbrev pub switch_error : Text → Option Text
switch_error v =
    if is_in v (codes "true" ∷ codes "false" ∷ [])
    then none
    else some (codes "action_value must be 'true' or 'false' for this action")

abbrev pub curtain_error : Text → Option Text
curtain_error v =
    if is_in v (codes "stop" ∷ codes "up" ∷ codes "down" ∷ [])
    then none
    else some (codes "action_value must be 'stop', 'up', or 'down' for a curtain action")

-- `_validate_action_value`: an error message, or `None`; on the value as it is stored, stripped and in
-- lower case.
unfoldable pub stored_value_error : DeviceType → Text → Option Text
stored_value_error type_dali v = percent_error (parse_int v)
stored_value_error type_relay v = switch_error v
stored_value_error type_appliance v = switch_error v
stored_value_error type_toggle v = switch_error v
stored_value_error type_curtain v = curtain_error v
stored_value_error _ v = none

unfoldable pub validate_action_value : DeviceType → Text → Option Text
unfolding stored_value_error
validate_action_value t raw = stored_value_error t (lower (strip raw))

-- The body of a POST, and of a PATCH, where absent fields are none.
pub record CreateRequest : Type 0 where
  pub name : Text
  pub trigger_device_id : Option ℕ
  pub action_device_id : Option ℕ
  pub trigger_state : Json
  pub action_value : Json

pub record PatchRequest : Type 0 where
  pub name : Option Json
  pub enabled : Option Json
  pub trigger_state : Option Json
  pub action_value : Option Json

pub data Reply : Type 0 where
  refused : ℕ → Text → Reply
  answered : Rule → Reply
  deleted : Text → Reply

-- The rules of the database, the next primary key, and the automations of the registry.
pub record System : Type 0 where
  pub rules : List Rule
  pub next_rule : ℕ
  pub automations : Automations

-- `.filter(pk=…, device_type__in=…).first()`; an id that is missing or 0 is refused before.
unfoldable pub find_device_row : (DeviceType → Bool) → ℕ → List Row → Option Row
find_device_row allowed k [] = none
find_device_row allowed k (d ∷ rows) =
    if d.pk == k && allowed d.device_type then some d else find_device_row allowed k rows

abbrev pub given : Option ℕ → Bool
given none = false
given (some n) = not (n == 0)

abbrev pub row_of : (DeviceType → Bool) → Option ℕ → List Row → Option Row
row_of allowed none rows = none
row_of allowed (some k) rows = find_device_row allowed k rows

-- The checks of `_create_rule` on its action device and value.
unfoldable pub action_refusal : Row → Text → Option Text
unfolding validate_action_value
action_refusal d raw =
    if not (is_writable_action d)
    then some (
        codes "'"
        ++ (d.name
            ++ codes
                "' is sensor-driven in the PLC and can't be controlled remotely, so it can't be used as an automation action"))
    else validate_action_value d.device_type raw

abbrev pub new_rule : CreateRequest → ℕ → Row → Row → Rule
new_rule q k trigger action = record {
  rule_id = k;
  name = strip q.name;
  enabled = true;
  trigger_device = trigger;
  trigger_state = json_flag q.trigger_state;
  action_device = action;
  action_value = lower (strip (json_text_or_empty q.action_value));
}

-- The answer after these checks.
unfoldable pub drafted : CreateRequest → ℕ → Row → Row → Option Text → Reply
drafted q k trigger action (some message) = refused 400 message
drafted q k trigger action none = answered (new_rule q k trigger action)

unfoldable pub draft : CreateRequest → ℕ → Option Row → Option Row → Reply
unfolding action_refusal drafted
draft q k none action =
    refused 400 (codes "trigger_device_id must be a switch or sensor in this apartment")
draft q k (some trigger) none =
    refused 400
      (codes "action_device_id must be a light, relay, curtain, or appliance in this apartment")
draft q k (some trigger) (some action) =
    drafted q k trigger action (action_refusal action (json_text_or_empty q.action_value))

-- `_create_rule` up to the creation of the row.
unfoldable pub checked_rule : CreateRequest → ℕ → List Row → Reply
unfolding draft
checked_rule q k rows =
    if eqb (strip q.name) []
    then refused 400 (codes "name is required")
    else if not (given q.trigger_device_id && given q.action_device_id)
    then refused 400 (codes "trigger_device_id and action_device_id are required")
    else draft q k (row_of is_trigger_type q.trigger_device_id rows)
        (row_of is_action_type q.action_device_id rows)

module _ {W : Type 0} (n : Notifier W) where
  unfoldable pub save_new : Registry → System → W → Reply → Reply × System × W
  save_new r s w (answered rule) =
      let rules = s.rules ++ rule ∷ [] in
      let (a, u) = reload_automation n rule.rule_id rules r s.automations w in
      (answered rule, record s { rules = rules; next_rule = s.next_rule + 1; automations = a }, u)
  save_new r s w (refused status message) = (refused status message, s, w)
  save_new r s w (deleted message) = (deleted message, s, w)

  -- `_create_rule`
  unfoldable pub create_rule : CreateRequest → List Row → Registry → System → W → Reply × System × W
  unfolding save_new checked_rule
  create_rule q rows r s w = save_new r s w (checked_rule q s.next_rule rows)
