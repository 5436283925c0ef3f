-- ===== src/Automations/Changes.antt =====
-- find_device/automation_views.py: `rule_detail`, and the sequences of requests.
use phone_app.Json.{Json, json_text, json_flag}
use phone_app.Base.{
  ℕ, Bool, Option, none, some, List, [], ◌∷◌, ◌++◌, ◌==◌, if◌then◌else◌, Text, codes, eqb,
}
use phone_app.Base.{lower, strip}
use phone_app.Notifications.{Notifier}
use phone_app.Registry.{Registry}
use phone_app.Registry.Loading.{Row}
use phone_app.Automations.{Rule, Automations, new_automations, reload_automation, remove_automation}
use phone_app.Automations.Rules.{
  validate_action_value, CreateRequest, PatchRequest, Reply, refused, answered, deleted, System,
  create_rule,
}

-- A rule by its key, whether it is enabled or not; the row saved; the row deleted.
unfoldable pub find_rule : ℕ → List Rule → Option Rule
find_rule k [] = none
find_rule k (rule ∷ rules) = if rule.rule_id == k then some rule else find_rule k rules

unfoldable pub save_rule : Rule → List Rule → List Rule
save_rule new [] = []
save_rule new (rule ∷ rules) =
    (if rule.rule_id == new.rule_id then new else rule) ∷ save_rule new rules

unfoldable pub delete_rule : ℕ → List Rule → List Rule
delete_rule k [] = []
delete_rule k (rule ∷ rules) =
    if rule.rule_id == k then delete_rule k rules else rule ∷ delete_rule k rules

abbrev pub or_flag : Option Json → Bool → Bool
or_flag none kept = kept
or_flag (some j) kept = json_flag j

-- The four fields of a PATCH, each checked before the next; nothing is saved on an error.
unfoldable pub named : Option Json → Rule → Reply
named none rule = answered rule
named (some j) rule =
    if eqb (strip (json_text j)) []
    then refused 400 (codes "name cannot be empty")
    else answered (record rule { name = strip (json_text j) })

unfoldable pub with_action : Text → Rule → Option Text → Reply
with_action raw rule none = answered (record rule { action_value = lower (strip raw) })
with_action raw rule (some message) = refused 400 message

unfoldable pub valued : Option Json → Rule → Reply
unfolding validate_action_value with_action
valued none rule = answered rule
valued (some j) rule =
    with_action (json_text j) rule
      (validate_action_value rule.action_device.device_type (json_text j))

unfoldable pub patched_rest : PatchRequest → Reply → Reply
patched_rest q (answered rule) = valued q.action_value (record rule {
  enabled = or_flag q.enabled rule.enabled;
  trigger_state = or_flag q.trigger_state rule.trigger_state;
})
patched_rest q (refused status message) = refused status message
patched_rest q (deleted message) = deleted message

unfoldable pub patched : PatchRequest → Rule → Reply
unfolding named patched_rest
patched q rule = patched_rest q (named q.name rule)

module _ {W : Type 0} (n : Notifier W) where
  unfoldable pub hot_load : Rule → List Rule → Registry → Automations → W → Automations × W
  hot_load rule rules r a w =
      if rule.enabled
      then reload_automation n rule.rule_id rules r a w
      else remove_automation n rule.rule_id a w

  unfoldable pub save_patched : Registry → System → W → Reply → Reply × System × W
  unfolding save_rule hot_load
  save_patched r s w (answered rule) =
      let rules = save_rule rule s.rules in
      let (a, u) = hot_load rule rules r s.automations w in
      (answered rule, record s { rules = rules; automations = a }, u)
  save_patched r s w (refused status message) = (refused status message, s, w)
  save_patched r s w (deleted message) = (deleted message, s, w)

  abbrev pub not_found : Text
  not_found = codes "Automation not found"

  unfoldable pub patch_found :
      Registry → System → W → PatchRequest → Option Rule → Reply × System × W
  unfolding save_patched patched
  patch_found r s w q none = (refused 404 not_found, s, w)
  patch_found r s w q (some rule) = save_patched r s w (patched q rule)

  unfoldable pub patch_rule : ℕ → PatchRequest → Registry → System → W → Reply × System × W
  unfolding patch_found find_rule
  patch_rule k q r s w = patch_found r s w q (find_rule k s.rules)

  unfoldable pub delete : ℕ → System → W → Reply × System × W
  unfolding delete_rule find_rule
  delete k s w = elim (find_rule k s.rules) [
    | none ↦ (refused 404 not_found, s, w)
    | some rule ↦
        let (a, u) = remove_automation n k s.automations w in
        (
          deleted (codes "Deleted '" ++ (rule.name ++ codes "'")),
          record s { rules = delete_rule k s.rules; automations = a },
          u,
        )
  ]

-- The requests to the views, with the devices at their time, from users who may manage automations.
pub data RuleCall : Type 0 where
  post_rule : CreateRequest → List Row → Registry → RuleCall
  patch : ℕ → PatchRequest → Registry → RuleCall
  remove : ℕ → RuleCall

unfoldable pub new_system : Bool → System
unfolding new_automations
new_system mock = record { rules = []; next_rule = 1; automations = new_automations mock }

module _ {W : Type 0} (n : Notifier W) where
  unfoldable pub rule_step : RuleCall → System → W → Reply × System × W
  rule_step (post_rule q rows r) s w = create_rule n q rows r s w
  rule_step (patch k q r) s w = patch_rule n k q r s w
  rule_step (remove k) s w = delete n k s w

  unfoldable pub rule_run : List RuleCall → System → W → System × W
  unfolding rule_step
  rule_run [] s w = (s, w)
  rule_run (call ∷ calls) s w = let (_, t, u) = rule_step call s w in rule_run calls t u
