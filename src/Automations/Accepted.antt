-- ===== src/Automations/Accepted.antt =====
-- A rule that the views accept is one that the execution understands.
use phone_app.Base.{
  ℕ, ◌≡◌, ◌⊎◌, inl, inr, refl, ap, ◌∙◌, Bool, true, false, ◌&&◌, ◌||◌, Option, none, some, [], ◌∷◌,
  arith, leb, ◌==◌, if◌then◌else◌, Text, codes, eqb,
}
use phone_app.Base.{parse_int, eqb_sound, is_in}
use phone_app.Base.Int.{ℤ, pos, negsuc}
use phone_app.Ads.State.{Pyads}
use phone_app.Devices.Curtain.{stop, up, down}
use phone_app.Registry.{Registry}
use phone_app.Registry.Loading.{
  DeviceType, type_dali, type_relay, type_curtain, type_appliance, type_toggle, type_switch,
  type_motion_sensor, type_door_sensor, type_window_sensor, type_named_switch, type_custom, Row,
}
use phone_app.Automations.Actions.{
  is_true_text, act, act_dali, act_relay, act_curtain, act_appliance, act_toggle, curtain_command,
}
use phone_app.Automations.Rules.{switch_error, percent_error, is_action_type, stored_value_error}

-- What a rule can tell its action device to do.
pub data Command : Type 0 where
  dim_to : ℕ → Command
  switch_to : Bool → Command
  move : ℕ → Command

abbrev pub is_percent : ℕ → Option ℤ → Bool
is_percent pct (some (pos n)) = n == pct && leb n 100
is_percent pct _ = false

abbrev pub switch_text : Bool → Text
switch_text on = if on then codes "true" else codes "false"

-- What a text tells a device of a type to do: a percentage, a position, or one of three movements.
abbrev pub means : DeviceType → Text → Command → Bool
means type_dali v (dim_to pct) = is_percent pct (parse_int v)
means type_relay v (switch_to on) = eqb v (switch_text on)
means type_appliance v (switch_to on) = eqb v (switch_text on)
means type_toggle v (switch_to on) = eqb v (switch_text on)
means type_curtain v (move cmd) =
    (eqb v (codes "stop") && cmd == stop)
    || (eqb v (codes "up") && cmd == up)
    || (eqb v (codes "down") && cmd == down)
means _ _ _ = false

module _ {W : Type 0} (p : Pyads W) where
  abbrev pub carry_out : DeviceType → Command → Row → Registry → W → Registry × W
  carry_out type_dali (dim_to pct) d r w = act_dali p d (some (pos pct)) r w
  carry_out type_relay (switch_to on) d r w = act_relay p d on r w
  carry_out type_curtain (move cmd) d r w = act_curtain p d (some cmd) r w
  carry_out type_appliance (switch_to on) d r w = act_appliance p d on r w
  carry_out type_toggle (switch_to on) d r w = act_toggle p d on r w
  carry_out _ _ d r w = (r, w)

  abbrev pub IsCarriedOut : DeviceType → Row → Text → Type 0
  IsCarriedOut t d v =
      (cmd : Command) × (means t v cmd ≡ true)
      × ((r : Registry) (w : W) → act p t d v r w ≡ carry_out t cmd d r w)

  -- "true" or "false".
  switch_cases :
      (v : Text)
      → is_in v (codes "true" ∷ codes "false" ∷ []) ≡ true
      → (v ≡ codes "true") ⊎ (v ≡ codes "false")
  switch_cases v h = ground (arith, eqb_sound v (codes "true"), eqb_sound v (codes "false"))

  curtain_cases :
      (v : Text)
      → is_in v (codes "stop" ∷ codes "up" ∷ codes "down" ∷ []) ≡ true
      → (v ≡ codes "stop") ⊎ (v ≡ codes "up") ⊎ (v ≡ codes "down")
  curtain_cases v h =
      ground
        (arith, eqb_sound v (codes "stop"), eqb_sound v (codes "up"), eqb_sound v (codes "down"))

  percent-IsCarriedOut :
      (d : Row) (v : Text) (o : Option ℤ)
      → parse_int v ≡ o
      → percent_error o ≡ none
      → IsCarriedOut type_dali d v
  unfolding act
  percent-IsCarriedOut d v none e h = ground arith
  percent-IsCarriedOut d v (some (negsuc m)) e h = ground arith
  percent-IsCarriedOut d v (some (pos pct)) e h =
      (dim_to pct, ground arith, λ r w. ap (λ o. act_dali p d o r w) e)

  switch_on :
      (v : Text) (d : Row) (t : DeviceType)
      → ((on : Bool) → means t v (switch_to on) ≡ eqb v (switch_text on))
      → ((r : Registry) (w : W) → act p t d v r w ≡ carry_out t (switch_to (is_true_text v)) d r w)
      → switch_error v ≡ none
      → IsCarriedOut t d v
  switch_on v d t meaning run fine = elim (switch_cases v (ground arith)) [
    | inl e ↦ (switch_to (is_true_text v), meaning _ ∙ rw e refl, run)
    | inr e ↦ (switch_to (is_true_text v), meaning _ ∙ rw e refl, run)
  ]

  pub stored-IsCarriedOut :
      (t : DeviceType) (d : Row) (v : Text)
      → is_action_type t ≡ true
      → stored_value_error t v ≡ none
      → IsCarriedOut t d v
  unfolding act stored_value_error curtain_command
  stored-IsCarriedOut type_dali d v is_action fine =
      percent-IsCarriedOut d v (parse_int v) refl fine
  stored-IsCarriedOut type_relay d v is_action fine =
      switch_on v d type_relay (λ on. refl) (λ r w. refl) fine
  stored-IsCarriedOut type_appliance d v is_action fine =
      switch_on v d type_appliance (λ on. refl) (λ r w. refl) fine
  stored-IsCarriedOut type_toggle d v is_action fine =
      switch_on v d type_toggle (λ on. refl) (λ r w. refl) fine
  stored-IsCarriedOut type_curtain d v is_action fine = elim (curtain_cases v (ground arith)) [
    | inl e ↦ (move stop, rw e refl, λ r w. rw e refl)
    | inr (inl e) ↦ (move up, rw e refl, λ r w. rw e refl)
    | inr (inr e) ↦ (move down, rw e refl, λ r w. rw e refl)
  ]
  stored-IsCarriedOut type_switch d v is_action fine = ground arith
  stored-IsCarriedOut type_door_sensor d v is_action fine = ground arith
  stored-IsCarriedOut type_window_sensor d v is_action fine = ground arith
  stored-IsCarriedOut type_motion_sensor d v is_action fine = ground arith
  stored-IsCarriedOut type_named_switch d v is_action fine = ground arith
  stored-IsCarriedOut type_custom d v is_action fine = ground arith
