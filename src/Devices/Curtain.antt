-- ===== src/Devices/Curtain.antt =====
-- find_device/plc/devices.py: `class CurtainMotor`.
use phone_app.Base.{ℕ, not, ◌++◌, leb, ◌==◌, if◌then◌else◌, Text, codes}
use phone_app.Base.{decimal, between}
use phone_app.Ads.State.{
  bool, plc_bool, Pyads, Result, ok, err, value_error, M, ◌>>=◌, ◌>>◌, pure, raise,
}
use phone_app.Ads.Io.{read, write}
use phone_app.Devices.Wire.{truthy, is_mock}

pub record CurtainMotor : Type 0 where
  pub index : ℕ
  pub name : Text
  pub room : Text
  pub mock_state : ℕ

-- `STOP`, `UP` and `DOWN`.
abbrev pub stop : ℕ
stop = 0

abbrev pub up : ℕ
up = 1

abbrev pub down : ℕ
down = 2

-- `CurtainMotor.MAX_INDEX`
abbrev pub max_index : ℕ
max_index = 2

-- `CurtainMotor.__init__`
unfoldable pub new_curtain : ℕ → Text → Text → Result CurtainMotor
new_curtain index name room =
    if not (between 1 index max_index)
    then err value_error
    else ok (record { index = index; name = name; room = room; mock_state = 0 })

unfoldable pub var_open_btn : CurtainMotor → Text
unfolding decimal
var_open_btn d = codes "gvlCurtain.bCurtain" ++ decimal d.index ++ codes "OpenBtn"

unfoldable pub var_close_btn : CurtainMotor → Text
unfolding decimal
var_close_btn d = codes "gvlCurtain.bCurtain" ++ decimal d.index ++ codes "CloseBtn"

unfoldable pub var_open : CurtainMotor → Text
unfolding decimal
var_open d = codes "gvlCurtain.bCurtain" ++ decimal d.index ++ codes "Open"

unfoldable pub var_close : CurtainMotor → Text
unfolding decimal
var_close d = codes "gvlCurtain.bCurtain" ++ decimal d.index ++ codes "Close"

module _ {W : Type 0} (p : Pyads W) where
  -- The two writes of `set_command`: the open button first.
  unfoldable pub press : CurtainMotor → ℕ → M W CurtainMotor
  press d cmd = do
    write p (var_open_btn d) (bool (cmd == up)) plc_bool
    write p (var_close_btn d) (bool (cmd == down)) plc_bool
    pure d

  -- `CurtainMotor.set_command`
  unfoldable pub set_command : CurtainMotor → ℕ → M W CurtainMotor
  set_command d cmd =
      if not (leb cmd 2)
      then raise value_error
      else (do mock ← is_mock; if mock then pure (record d { mock_state = cmd }) else press d cmd)

  unfoldable pub read_outputs : CurtainMotor → M W ℕ
  read_outputs d = do
    opening ← read p (var_open d) plc_bool
    if truthy opening
        then pure up
        else (read p (var_close d) plc_bool >>= λ closing.
            pure (if truthy closing then down else stop))

  -- `CurtainMotor.read_state`
  unfoldable pub read_curtain : CurtainMotor → M W ℕ
  read_curtain d = do mock ← is_mock; if mock then pure d.mock_state else read_outputs d
