-- ===== src/Tests/Automations.antt =====
-- A button that dims a light: requests, reloads, and the samples of the button.
use phone_app.Json.{json_text_or_empty, json_text, boolean, text}
use phone_app.Base.{
  parse_int, ◌≤◌, ◌≡◌, ◌⊎◌, refl, true, false, none, some, List, [], ◌∷◌, if◌then◌else◌, Text,
  codes,
}
use phone_app.Base.{get_at}
use phone_app.Ads.State.{bool, value}
use phone_app.Devices.Wire.{truthy}
use phone_app.Devices.Inputs.{input_var, switch_input}
use phone_app.Notifications.{
  add_callback, add_listener, keep_handle, register, register_once, finish_subscribe, subscribe,
  new_manager, Notifier,
}
use phone_app.Registry.{Registry}
use phone_app.Registry.Loading.{Row, type_switch}
use phone_app.Automations.{
  fired_by, reload_automation, note_subscription, subscribe_to, enabled_rule, trigger_object, Rule,
  new_automations, load_automations, AutomationCall, call_reload, call_remove, automation_run,
  fired, subscribe_automation, remove_automation,
}
use phone_app.Automations.Once.{times}
use phone_app.Automations.Fires.{is_armed, each_rule_fires_once}
use phone_app.Automations.Rules.{
  action_refusal, drafted, draft, checked_rule, save_new, validate_action_value, stored_value_error,
  is_writable_action, find_device_row, create_rule, CreateRequest,
}
use phone_app.Automations.Changes.{
  rule_step, RuleCall, post_rule, patch, find_rule, new_system, rule_run,
}
use phone_app.Automations.Outcome.{IsDue, rule_run-fires}
use phone_app.Tests.Plc.{World, plc, world}
use phone_app.Tests.Registry.{light, home, inputs}

abbrev notifier : Notifier World
notifier = record { add_notification = λ var t ms w. (value 3, w); del_notification = λ h w. w }

abbrev button_row : Row
button_row = record (light 1) { device_type = type_switch }

abbrev rooms : Registry
rooms = record home { switches = inputs }

abbrev dimming : Rule
dimming = record {
  rule_id = 1;
  name = codes "dim";
  enabled = true;
  trigger_device = button_row;
  trigger_state = true;
  action_device = light 3;
  action_value = codes "40";
}

abbrev pressed : Text
pressed = input_var (switch_input 1)

abbrev reloads : List AutomationCall
reloads = call_reload 1 (dimming ∷ []) rooms ∷ call_remove 2 ∷ []

each_rule_fires_once_example :
    let (loaded, u) =
      load_automations notifier (dimming ∷ []) rooms (new_automations false) world in
    let a = (automation_run notifier reloads loaded u).0 in
    times 1 (fired a pressed (bool true)) ≡ (
      if is_armed (truthy (bool true)) pressed 1 (get_at 1 a.automation_subs) a.closures
      then 1
      else 0)
each_rule_fires_once_example =
    each_rule_fires_once notifier false (dimming ∷ []) rooms reloads world pressed (bool true) 1
      refl

abbrev wanted : CreateRequest
wanted = record {
  name = codes "dim";
  trigger_device_id = some 1;
  action_device_id = some 3;
  trigger_state = boolean true;
  action_value = text (codes " 40 ");
}

abbrev requests : List RuleCall
requests =
    post_rule wanted (button_row ∷ light 3 ∷ []) rooms
    ∷ patch 1
        (record {
          name = none;
          enabled = some (boolean false);
          trigger_state = none;
          action_value = none;
        })
        rooms
    ∷ []

rule_run-fires_example :
    let s = (rule_run notifier requests (new_system false) world).0 in
    (times 1 (fired s.automations pressed (bool true)) ≤ 1)
    × ((times 1 (fired s.automations pressed (bool true)) ≡ 0)
        ⊎ ((rule : Rule) × (find_rule 1 s.rules ≡ some rule) × IsDue plc (truthy (bool true)) rule))
rule_run-fires_example = rule_run-fires notifier plc false requests world pressed (bool true) 1

-- The rule is stored with its value stripped, and a press executes it.
wanted_fires :
    let s =
      (rule_run notifier
        (post_rule wanted (button_row ∷ light 3 ∷ []) rooms ∷ [])
        (new_system false)
        world).0 in
    fired s.automations pressed (bool true) ≡ 1 ∷ []
unfolding fired rule_run create_rule find_device_row is_writable_action new_system
    stored_value_error parse_int json_text json_text_or_empty validate_action_value enabled_rule
    trigger_object subscribe_automation subscribe_to note_subscription new_automations new_manager
    subscribe finish_subscribe register_once register keep_handle add_listener add_callback
    reload_automation remove_automation fired_by truthy input_var save_new checked_rule draft
    drafted action_refusal rule_step
wanted_fires = refl
