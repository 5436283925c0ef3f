-- ===== src/Devices/Wire.antt =====
-- What the device classes of find_device/plc/devices.py do with the client they share.
use phone_app.Base.{ℕ, Bool, true, false, not, if◌then◌else◌, Text}
use phone_app.Base.Int.{ℤ, pos, eqb_ℤ}
use phone_app.Ads.State.{Value, bool, num, plc_bool, Pyads, ok, M, ◌>>=◌, ◌>>◌, pure}
use phone_app.Ads.Io.{read, write}

-- `bool(raw)`
unfoldable pub truthy : Value → Bool
truthy (bool b) = b
truthy (num z) = not (eqb_ℤ z (pos 0))

-- `int(raw)`
unfoldable pub to_int : Value → ℤ
to_int (bool true) = pos 1
to_int (bool false) = pos 0
to_int (num z) = z

-- `self._client.mock`
abbrev pub is_mock : {W : Type 0} → M W Bool
is_mock c w = (ok c.mock, c, w)

module _ {W : Type 0} (p : Pyads W) where
  -- `time.sleep`, in milliseconds.
  abbrev pub pause : ℕ → M W Unit
  pause ms c w = (ok tt, c, p.sleep ms w)

  -- A BOOL variable, or what a mock device holds in its place.
  unfoldable pub read_bool : Bool → Text → M W Bool
  read_bool mock_state var = do
    mock ← is_mock
    if mock then pure mock_state else (read p var plc_bool >>= λ v. pure (truthy v))

  -- The commit pulse: true, 50 ms, false.
  unfoldable pub pulse : Text → M W Unit
  pulse var = do write p var (bool true) plc_bool; pause 50; write p var (bool false) plc_bool
