-- ===== src/SuperScan/Objects.antt =====
-- find_device/superscan.py, `_safe_active_test`: the device objects that it calls are those of
-- find_device/plc/devices.py, here one of each class on one client. `registry.all_toggles` are the
-- `NamedRelay`s.
use phone_app.Base.{ℕ, Bool, Option, none, some, ◌==◌, if◌then◌else◌}
use phone_app.Base.Int.{pos}
use phone_app.Ads.State.{Pyads, AdsClient, Result, ok, err}
use phone_app.Devices.Dali.{DaliChannel, set_brightness, read_actual_level}
use phone_app.Devices.Relays.{
  WallRelay, set_relay, read_relay, NamedRelay, set_named, read_named, ApplianceRelay,
  set_appliance, read_appliance,
}
use phone_app.Devices.Curtain.{CurtainMotor, set_command, read_curtain}
use phone_app.SuperScan.Active.{Devices}

pub record Rig (W : Type 0) : Type 0 where
  pub client : AdsClient
  pub world : W
  pub dali : DaliChannel
  pub relay : WallRelay
  pub appliance : ApplianceRelay
  pub toggle : NamedRelay
  pub curtain : CurtainMotor
  pub cancelled : Bool

-- The numbers of the three objects with a `set_state`; any other number is the toggle.
abbrev pub relay_obj : ℕ
relay_obj = 0

abbrev pub appliance_obj : ℕ
appliance_obj = 1

abbrev pub answer_of : {W A : Type 0} → Rig W → Result A × AdsClient × W → Option A × Rig W
answer_of r (ok a, c, w) = (some a, record r { client = c; world = w })
answer_of r (err e, c, w) = (none, record r { client = c; world = w })

-- A method that changes its object; an exception leaves it as it was.
abbrev pub store_of :
    {W A : Type 0}
    → (A → Rig W → Rig W)
    → Rig W
    → Result A × AdsClient × W
    → Option {0} Unit × Rig W
store_of keep r (ok a, c, w) = (some tt, keep a (record r { client = c; world = w }))
store_of keep r (err e, c, w) = (none, record r { client = c; world = w })

module _ {W : Type 0} (p : Pyads W) where
  unfoldable pub read_of : ℕ → Rig W → Option Bool × Rig W
  read_of o r =
      if o == relay_obj
      then answer_of r (read_relay p r.relay r.client r.world)
      else if o == appliance_obj
      then answer_of r (read_appliance p r.appliance r.client r.world)
      else answer_of r (read_named p r.toggle r.client r.world)

  unfoldable pub set_of : ℕ → Bool → Rig W → Option {0} Unit × Rig W
  set_of o on r =
      if o == relay_obj
      then store_of (λ d s. record s { relay = d }) r (set_relay p r.relay on r.client r.world)
      else if o == appliance_obj
      then store_of (λ d s. record s { appliance = d }) r
          (set_appliance p r.appliance on r.client r.world)
      else store_of (λ d s. record s { toggle = d }) r (set_named p r.toggle on r.client r.world)

  abbrev pub objects : Devices (Rig W)
  objects = record {
    read_level = λ o r. answer_of r (read_actual_level p r.dali r.client r.world);
    set_brightness = λ o v r.
        store_of (λ d s. record s { dali = d }) r
          (set_brightness p r.dali (pos v) r.client r.world);
    read_state = read_of;
    set_state = set_of;
    read_curtain = λ o r. answer_of r (read_curtain p r.curtain r.client r.world);
    set_command = λ o v r.
        store_of (λ d s. record s { curtain = d }) r (set_command p r.curtain v r.client r.world);
    sleep = λ ms r. record r { world = p.sleep ms r.world };
    connected = λ r. r.client.connected;
    cancel_requested = λ r. r.cancelled;
  }
