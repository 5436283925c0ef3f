-- ===== src/Devices/Relays.antt =====
-- find_device/plc/devices.py: `WallRelay`, `NamedRelay`, `ApplianceRelay`, `CurtainMotor` and
-- `TemplatedDevice`, the devices that are written to beside the DALI channels.
use phone_app.Base.{
  none, some, [], ◌-◌, ◌∷◌, ◌++◌, not, some, false, codes, if◌then◌else◌, Option, Bool, List, Text,
  ℕ,
}
use phone_app.Base.{none, some, decimal, between, is_in}
use phone_app.Ads.State.{
  Value, bool, PlcType, plc_bool, Pyads, Result, ok, err, value_error, M, ◌>>=◌, ◌>>◌, pure, raise,
}
use phone_app.Ads.Io.{read, write}
use phone_app.Devices.Wire.{is_mock, pulse, read_bool}

pub record WallRelay : Type 0 where
  pub channel : ℕ
  pub name : Text
  pub room : Text
  pub mock_state : Bool

-- `WallRelay.__init__`
unfoldable pub new_wall_relay : ℕ → Text → Text → Result WallRelay
new_wall_relay channel name room =
    if not (between 1 channel 16)
    then err value_error
    else ok (record { channel = channel; name = name; room = room; mock_state = false })

-- `_var_state`, also `batch_var`. The constructor's bound makes `channel - 1` exact.
unfoldable pub relay_var_state : WallRelay → Text
unfolding decimal
relay_var_state d = codes "gvlDALI.bRelay" ++ decimal (d.channel - 1)

unfoldable pub relay_var_cmd : WallRelay → Text
unfolding decimal
relay_var_cmd d = codes "gvlController.bRelayCmd" ++ decimal (d.channel - 1)

unfoldable pub relay_var_cmd_set : WallRelay → Text
unfolding decimal
relay_var_cmd_set d = codes "gvlController.bRelaySet" ++ decimal (d.channel - 1)

pub record NamedRelay : Type 0 where
  pub var_name : Text
  pub name : Text
  pub room : Text
  pub writable : Bool
  pub mock_state : Bool

-- `NamedRelay.__init__`
abbrev pub new_named_relay : Text → Text → Text → Bool → NamedRelay
new_named_relay var_name name room writable = record {
  var_name = var_name;
  name = name;
  room = room;
  writable = writable;
  mock_state = false;
}

unfoldable pub named_var : NamedRelay → Text
named_var d = codes "gvlDALI." ++ d.var_name

pub record ApplianceRelay : Type 0 where
  pub gvl_name : Text
  pub name : Text
  pub room : Text
  pub mock_state : Bool

-- `APPLIANCE_NAMES`
abbrev pub appliance_names : List Text
appliance_names = codes "Fridge" ∷ codes "CoffeeMachine" ∷ codes "Microwave" ∷ []

-- `ApplianceRelay.__init__`
unfoldable pub new_appliance : Text → Text → Text → Result ApplianceRelay
new_appliance gvl_name name room =
    if not (is_in gvl_name appliance_names)
    then err value_error
    else ok (record { gvl_name = gvl_name; name = name; room = room; mock_state = false })

unfoldable pub appliance_var_cmd : ApplianceRelay → Text
appliance_var_cmd d = codes "gvlIO.bPy" ++ d.gvl_name ++ codes "Cmd"

unfoldable pub appliance_var_state : ApplianceRelay → Text
appliance_var_state d = codes "gvlIO.bPy" ++ d.gvl_name ++ codes "State"

module _ {W : Type 0} (p : Pyads W) where
  unfoldable pub commit_relay : WallRelay → Bool → M W WallRelay
  commit_relay d on = do
    write p (relay_var_cmd d) (bool on) plc_bool
    pulse p (relay_var_cmd_set d)
    pure d

  -- `WallRelay.set_state`
  unfoldable pub set_relay : WallRelay → Bool → M W WallRelay
  set_relay d on = do
    mock ← is_mock
    if mock then pure (record d { mock_state = on }) else commit_relay d on

  -- `WallRelay.read_state`
  unfoldable pub read_relay : WallRelay → M W Bool
  read_relay d = read_bool p d.mock_state (relay_var_state d)

  -- `NamedRelay.set_state`: a sensor-driven relay is refused before anything else.
  unfoldable pub set_named : NamedRelay → Bool → M W NamedRelay
  set_named d on = if not d.writable then raise value_error else (do
    mock ← is_mock
    if mock
        then pure (record d { mock_state = on })
        else (write p (named_var d) (bool on) plc_bool >> pure d))

  -- `NamedRelay.read_state`
  unfoldable pub read_named : NamedRelay → M W Bool
  read_named d = read_bool p d.mock_state (named_var d)

  -- `ApplianceRelay.set_state`
  unfoldable pub set_appliance : ApplianceRelay → Bool → M W ApplianceRelay
  set_appliance d on = do
    mock ← is_mock
    if mock
        then pure (record d { mock_state = on })
        else (write p (appliance_var_cmd d) (bool on) plc_bool >> pure d)

  -- `ApplianceRelay.read_state`
  unfoldable pub read_appliance : ApplianceRelay → M W Bool
  read_appliance d = read_bool p d.mock_state (appliance_var_state d)

-- A scheme as `TemplatedDevice.__init__` leaves it on the device: the rendered variable names.
pub record TemplatedDevice : Type 0 where
  pub apartment_device_id : ℕ
  pub name : Text
  pub room : Text
  pub var_read : Option Text
  pub var_write : Option Text
  pub var_commit : Option Text
  pub plctype : PlcType
  pub mock_value : Value

module _ {W : Type 0} (p : Pyads W) where
  unfoldable pub read_var : Option Text → TemplatedDevice → M W Value
  read_var none d = raise value_error
  read_var (some var) d = do
    mock ← is_mock
    if mock then pure d.mock_value else read p var d.plctype

  -- `TemplatedDevice.read`, also `read_state`.
  unfoldable pub read_templated : TemplatedDevice → M W Value
  unfolding read_var
  read_templated d = read_var d.var_read d

  unfoldable pub commit : Option Text → M W Unit
  commit none = pure tt
  commit (some var) = pulse p var

  unfoldable pub write_var : Option Text → Value → TemplatedDevice → M W TemplatedDevice
  write_var none v d = raise value_error
  write_var (some var) v d = do
    mock ← is_mock
    if mock
        then pure (record d { mock_value = v })
        else (write p var v d.plctype >> (commit d.var_commit >> pure d))

  -- `TemplatedDevice.write`
  unfoldable pub write_templated : Value → TemplatedDevice → M W TemplatedDevice
  unfolding write_var
  write_templated v d = write_var d.var_write v d
