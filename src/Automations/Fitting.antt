-- ===== src/Automations/Fitting.antt =====
-- What the checks of the views ensure of a rule, and what their changes do to the rules.
use phone_app.Json.{Json, json_text, json_text_or_empty}
use phone_app.Base.{
  either_branch, subst, ℕ, ◌≡◌, refl, Bool, true, false, not, ◌&&◌, Option, none, some, List, [],
  ◌∷◌, arith, ltb, if◌then◌else◌, Text, eqb,
}
use phone_app.Base.{is_some, lower, strip}
use phone_app.Registry.Loading.{DeviceType, Row}
use phone_app.Automations.{Rule}
use phone_app.Automations.Rules.{
  given, new_rule, deleted, drafted, refused, is_trigger_type, is_action_type, is_writable_action,
  stored_value_error, validate_action_value, CreateRequest, PatchRequest, Reply, answered,
  find_device_row, row_of, action_refusal, draft, checked_rule,
}
use phone_app.Automations.Changes.{named, with_action, valued, patched_rest, patched}

-- A rule from an input to an output that can be written, with a value that the execution understands.
unfoldable pub fits : Rule → Bool
fits rule =
    is_trigger_type rule.trigger_device.device_type
    && is_action_type rule.action_device.device_type
    && is_writable_action rule.action_device
    && not (is_some (stored_value_error rule.action_device.device_type rule.action_value))

abbrev pub all_fit : List Rule → Bool
all_fit [] = true
all_fit (rule ∷ rules) = fits rule && all_fit rules

abbrev pub all_below : ℕ → List Rule → Bool
all_below n [] = true
all_below n (rule ∷ rules) = ltb rule.rule_id n && all_below n rules

find_device_row-allowed :
    (allowed : DeviceType → Bool) (k : ℕ) (rows : List Row) {d : Row}
    → find_device_row allowed k rows ≡ some d
    → allowed d.device_type ≡ true
unfolding find_device_row
find_device_row-allowed allowed k [] e = ground arith
find_device_row-allowed allowed k (row ∷ rows) {d} e =
    ground (arith, find_device_row-allowed allowed k rows {d = d})

row_of-allowed :
    (allowed : DeviceType → Bool) (k : Option ℕ) (rows : List Row) {d : Row}
    → row_of allowed k rows ≡ some d
    → allowed d.device_type ≡ true
row_of-allowed allowed none rows e = ground arith
row_of-allowed allowed (some k) rows {d} e = find_device_row-allowed allowed k rows {d = d} e

fits-intro :
    (rule : Rule)
    → is_trigger_type rule.trigger_device.device_type ≡ true
    → is_action_type rule.action_device.device_type ≡ true
    → is_writable_action rule.action_device ≡ true
    → stored_value_error rule.action_device.device_type rule.action_value ≡ none
    → fits rule ≡ true
unfolding fits
fits-intro rule t a w v = rw (t, a, w, v) refl

fits-valued :
    (v : Text) (rule : Rule)
    → fits rule ≡ true
    → stored_value_error rule.action_device.device_type v ≡ none
    → fits (record rule { action_value = v }) ≡ true
unfolding fits
fits-valued v rule h e = ground arith

-- What holds of the rules that are answered.
abbrev AnswersFit : ℕ → Reply → Type 0
AnswersFit k (answered rule) = (fits rule ≡ true) × (rule.rule_id ≡ k)
AnswersFit k (refused status message) = ℕ
AnswersFit k (deleted message) = ℕ

AnswersFit-answered :
    (k : ℕ) (reply : Reply) {rule : Rule}
    → AnswersFit k reply
    → reply ≡ answered rule
    → (fits rule ≡ true) × (rule.rule_id ≡ k)
AnswersFit-answered k reply h e = subst (AnswersFit k) e h

passed :
    (b : Bool) (m : Text) (o : Option Text)
    → (if not b then some m else o) ≡ none
    → (b ≡ true) × (o ≡ none)
passed true m o e = (refl, e)
passed false m o e = ground arith

drafted-AnswersFit :
    (q : CreateRequest) (k : ℕ) (trigger action : Row) (o : Option Text)
    → is_trigger_type trigger.device_type ≡ true
    → is_action_type action.device_type ≡ true
    → action_refusal action (json_text_or_empty q.action_value) ≡ o
    → AnswersFit k (drafted q k trigger action o)
unfolding action_refusal validate_action_value drafted
drafted-AnswersFit q k trigger action (some message) t a e = 0
drafted-AnswersFit q k trigger action none t a e =
    let (writable, fine) = passed (is_writable_action action) _ _ e in
    (fits-intro (new_rule q k trigger action) t a writable fine, refl)

draft-AnswersFit :
    (q : CreateRequest) (k : ℕ) (trigger action : Option Row)
    → ((d : Row) → trigger ≡ some d → is_trigger_type d.device_type ≡ true)
    → ((d : Row) → action ≡ some d → is_action_type d.device_type ≡ true)
    → AnswersFit k (draft q k trigger action)
unfolding draft
draft-AnswersFit q k none action t a = 0
draft-AnswersFit q k (some trigger) none t a = 0
draft-AnswersFit q k (some trigger) (some action) t a =
    drafted-AnswersFit q k trigger action _ (t trigger refl) (a action refl) refl

checked_rule-AnswersFit :
    (q : CreateRequest) (k : ℕ) (rows : List Row) → AnswersFit k (checked_rule q k rows)
unfolding checked_rule
checked_rule-AnswersFit q k rows =
    let drawn =
      draft-AnswersFit q k (row_of is_trigger_type q.trigger_device_id rows)
        (row_of is_action_type q.action_device_id rows)
        (λ d e. row_of-allowed is_trigger_type q.trigger_device_id rows {d = d} e)
        (λ d e. row_of-allowed is_action_type q.action_device_id rows {d = d} e) in
    either_branch (AnswersFit k) (eqb (strip q.name) []) _ _ 0 (
      either_branch (AnswersFit k) (not (given q.trigger_device_id && given q.action_device_id)) _ _
        0 drawn)

pub checked_rule-fits :
    (q : CreateRequest) (k : ℕ) (rows : List Row) {rule : Rule}
    → checked_rule q k rows ≡ answered rule
    → (fits rule ≡ true) × (rule.rule_id ≡ k)
checked_rule-fits q k rows e =
    AnswersFit-answered k (checked_rule q k rows) (checked_rule-AnswersFit q k rows) e

with_action-AnswersFit :
    (raw : Text) (rule : Rule) (o : Option Text)
    → fits rule ≡ true
    → validate_action_value rule.action_device.device_type raw ≡ o
    → AnswersFit rule.rule_id (with_action raw rule o)
unfolding with_action validate_action_value
with_action-AnswersFit raw rule (some message) h e = 0
with_action-AnswersFit raw rule none h e = (fits-valued (lower (strip raw)) rule h e, refl)

valued-AnswersFit :
    (j : Option Json) (rule : Rule) → fits rule ≡ true → AnswersFit rule.rule_id (valued j rule)
unfolding valued
valued-AnswersFit none rule h = (h, refl)
valued-AnswersFit (some j) rule h = with_action-AnswersFit (json_text j) rule _ h refl

named-AnswersFit :
    (j : Option Json) (rule : Rule) → fits rule ≡ true → AnswersFit rule.rule_id (named j rule)
unfolding named fits
named-AnswersFit none rule h = (h, refl)
named-AnswersFit (some j) rule h =
    either_branch (AnswersFit rule.rule_id) (eqb (strip (json_text j)) []) _ _ 0 (h, refl)

patched_rest-AnswersFit :
    (q : PatchRequest) (k : ℕ) (reply : Reply)
    → AnswersFit k reply
    → AnswersFit k (patched_rest q reply)
unfolding patched_rest fits
patched_rest-AnswersFit q k (answered rule) (h, same) =
    subst (λ k. AnswersFit k (patched_rest q (answered rule))) same
      (valued-AnswersFit q.action_value _ h)
patched_rest-AnswersFit q k (refused status message) h = 0
patched_rest-AnswersFit q k (deleted message) h = 0

pub patched-fits :
    (q : PatchRequest) (rule : Rule) {new : Rule}
    → patched q rule ≡ answered new
    → fits rule ≡ true
    → (fits new ≡ true) × (new.rule_id ≡ rule.rule_id)
unfolding patched
patched-fits q rule e h =
    AnswersFit-answered rule.rule_id _
      (patched_rest-AnswersFit q rule.rule_id (named q.name rule) (named-AnswersFit q.name rule h))
      e
