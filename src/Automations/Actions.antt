-- ===== src/Automations/Actions.antt =====
-- find_device/plc/registry.py: `_execute_automation`, what a rule does when it fires.
use phone_app.Base.{ℕ, Bool, Option, none, some, List, if◌then◌else◌, Text, codes, eqb}
use phone_app.Base.{put_at, lookup, insert, parse_int, lower, strip}
use phone_app.Base.Int.{ℤ}
use phone_app.Ads.State.{Pyads, Result, ok, err}
use phone_app.Devices.Dali.{set_brightness}
use phone_app.Devices.Relays.{set_relay, set_named, set_appliance}
use phone_app.Devices.Curtain.{set_command, stop, up, down}
use phone_app.Registry.{Registry, on_ads}
use phone_app.Registry.Loading.{
  DeviceType, type_dali, type_relay, type_curtain, type_appliance, type_toggle, Row, key,
}
use phone_app.Automations.{Rule, at_index, enabled_rule}

-- The dict of the commands of a curtain.
unfoldable pub curtain_command : Text → Option ℕ
curtain_command v =
    if eqb v (codes "stop")
    then some stop
    else if eqb v (codes "up")
    then some up
    else if eqb v (codes "down")
    then some down
    else none

abbrev pub is_true_text : Text → Bool
is_true_text v = eqb (lower (strip v)) (codes "true")

-- The object of a device is changed in place; an exception is logged.
abbrev pub kept :
    {W A : Type 0} → (A → Registry → Registry) → Result A × Registry × W → Registry × W
kept put (ok a, r, w) = (put a r, w)
kept put (err e, r, w) = (r, w)

module _ {W : Type 0} (p : Pyads W) where
  -- The device is `None` where the registry has none; `int` raises before the call.
  unfoldable pub act_dali : Row → Option ℤ → Registry → W → Registry × W
  act_dali d percent r w = elim (at_index d.channel_or_index r.dali) [
    | none ↦ (r, w)
    | some dev ↦ elim percent [
      | none ↦ (r, w)
      | some pct ↦
          kept (λ e s. record s { dali = put_at (key d.channel_or_index) e s.dali })
            (on_ads (set_brightness p dev pct) r w)
    ]
  ]

  unfoldable pub act_relay : Row → Bool → Registry → W → Registry × W
  act_relay d on r w = elim (at_index d.channel_or_index r.relays) [
    | none ↦ (r, w)
    | some dev ↦
        kept (λ e s. record s { relays = put_at (key d.channel_or_index) e s.relays })
          (on_ads (set_relay p dev on) r w)
  ]

  unfoldable pub act_curtain : Row → Option ℕ → Registry → W → Registry × W
  act_curtain d command r w = elim (at_index d.channel_or_index r.curtains) [
    | none ↦ (r, w)
    | some dev ↦ elim command [
      | none ↦ (r, w)
      | some cmd ↦
          kept (λ e s. record s { curtains = put_at (key d.channel_or_index) e s.curtains })
            (on_ads (set_command p dev cmd) r w)
    ]
  ]

  unfoldable pub act_appliance : Row → Bool → Registry → W → Registry × W
  act_appliance d on r w = elim (lookup d.gvl_name r.appliances) [
    | none ↦ (r, w)
    | some dev ↦
        kept (λ e s. record s { appliances = insert d.gvl_name e s.appliances })
          (on_ads (set_appliance p dev on) r w)
  ]

  unfoldable pub act_toggle : Row → Bool → Registry → W → Registry × W
  act_toggle d on r w = elim (lookup d.gvl_name r.toggles) [
    | none ↦ (r, w)
    | some dev ↦
        kept (λ e s. record s { toggles = insert d.gvl_name e s.toggles })
          (on_ads (set_named p dev on) r w)
  ]

  -- The branches on the type of the action device.
  unfoldable pub act : DeviceType → Row → Text → Registry → W → Registry × W
  act type_dali d v r w = act_dali d (parse_int v) r w
  act type_relay d v r w = act_relay d (is_true_text v) r w
  act type_curtain d v r w = act_curtain d (curtain_command (lower (strip v))) r w
  act type_appliance d v r w = act_appliance d (is_true_text v) r w
  act type_toggle d v r w = act_toggle d (is_true_text v) r w
  act _ d v r w = (r, w)

  -- `_execute_automation`
  unfoldable pub execute_automation : ℕ → List Rule → Registry → W → Registry × W
  unfolding act
  execute_automation k rules r w = elim (enabled_rule k rules) [
    | none ↦ (r, w)
    | some rule ↦ act rule.action_device.device_type rule.action_device rule.action_value r w
  ]
