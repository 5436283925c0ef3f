-- ===== src/Devices/Inputs.antt =====
-- find_device/plc/devices.py: the inputs `SwitchInput`, `NamedSwitchInput`, `MagneticSensor` and
-- `MotionSensor`, and `SecurityController`.
use phone_app.Base.{ℕ, ◌-◌, Bool, true, false, not, ◌++◌, if◌then◌else◌, Text, codes}
use phone_app.Base.{decimal, between}
use phone_app.Ads.State.{bool, plc_bool, Pyads, Result, ok, err, value_error, M, ◌>>=◌, ◌>>◌, pure}
use phone_app.Ads.Io.{write}
use phone_app.Devices.Wire.{is_mock, read_bool}

-- An input: what its index or name is, where it hangs, and its mock state. The variable that is read
-- and subscribed to depends on the class.
pub data InputKind : Type 0 where
  switch_input motion_sensor door_sensor window_sensor : ℕ → InputKind
  named_switch : Text → InputKind

pub record InputDevice : Type 0 where
  pub kind : InputKind
  pub name : Text
  pub room : Text
  pub mock_state : Bool

-- The constructors' range checks.
unfoldable pub in_range : InputKind → Bool
in_range (switch_input i) = between 1 i 48
in_range (motion_sensor i) = between 1 i 8
in_range (door_sensor i) = between 1 i 16
in_range (window_sensor i) = between 1 i 16
in_range (named_switch _) = true

unfoldable pub new_input : InputKind → Text → Text → Result InputDevice
unfolding in_range
new_input kind name room =
    if not (in_range kind)
    then err value_error
    else ok (record { kind = kind; name = name; room = room; mock_state = false })

-- `_var`, also `notification_var`.
unfoldable pub input_var : InputKind → Text
unfolding decimal
input_var (switch_input i) = codes "gvlDALI.bSwitchOn" ++ decimal i
input_var (motion_sensor i) = codes "gvlDALI.bSensor" ++ decimal (i - 1)
input_var (door_sensor i) = codes "gvlIO.aPyDoorSensor[" ++ decimal i ++ codes "]"
input_var (window_sensor i) = codes "gvlIO.aPyWindowSensor[" ++ decimal i ++ codes "]"
input_var (named_switch v) = codes "gvlDALI." ++ v

module _ {W : Type 0} (p : Pyads W) where
  -- `read_state`
  unfoldable pub read_input : InputDevice → M W Bool
  read_input d = read_bool p d.mock_state (input_var d.kind)

-- `SecurityController._mock`
pub record Security : Type 0 where
  pub armed : Bool
  pub triggered : Bool
  pub lockdown : Bool
  pub key : Bool

pub record SecurityState : Type 0 where
  pub armed : Bool
  pub triggered : Bool
  pub lockdown : Bool
  pub key_switch : Bool

module _ {W : Type 0} (p : Pyads W) where
  unfoldable pub set_alarm_armed : Security → Bool → M W Security
  set_alarm_armed s armed = do
    mock ← is_mock
    if mock
        then pure (record s { armed = armed })
        else (write p (codes "gvlIO.bPyAlarmArm") (bool armed) plc_bool >> pure s)

  unfoldable pub set_lockdown : Security → Bool → M W Security
  set_lockdown s active = do
    mock ← is_mock
    if mock
        then pure (record s { lockdown = active })
        else (write p (codes "gvlIO.bPyLockdown") (bool active) plc_bool >> pure s)

  -- `SecurityController.read_full_state`, which makes the four reads in this order.
  unfoldable pub read_security : Security → M W SecurityState
  read_security s = do
    armed ← read_bool p s.armed (codes "gvlIO.bPyAlarmState")
    triggered ← read_bool p s.triggered (codes "gvlIO.bPyAlarmTriggered")
    lockdown ← read_bool p s.lockdown (codes "gvlIO.bPyLockdownState")
    key ← read_bool p s.key (codes "gvlIO.bPyKeySwitch")
    pure (record { armed = armed; triggered = triggered; lockdown = lockdown; key_switch = key })
