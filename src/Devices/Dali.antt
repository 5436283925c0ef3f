-- ===== src/Devices/Dali.antt =====
-- find_device/plc/devices.py: `class DaliChannel`.
use phone_app.Base.{ℕ, zero, suc, ◌+◌, Bool, not, ◌||◌, ◌++◌, ltb, ◌==◌, if◌then◌else◌, Text, codes}
use phone_app.Base.{decimal, min, max, ◌/◌, between}
use phone_app.Base.Int.{ℤ, pos}
use phone_app.Ads.State.{
  Value, num, plc_byte, Pyads, Result, ok, err, value_error, M, ◌>>=◌, ◌>>◌, pure,
}
use phone_app.Ads.Io.{read, write}
use phone_app.Devices.Levels.{pct_to_byte, byte_to_pct}
use phone_app.Devices.Wire.{to_int, is_mock, pause, pulse}

pub record DaliChannel : Type 0 where
  pub channel : ℕ
  pub name : Text
  pub room : Text
  pub apartment_device_id : ℕ
  pub mock_level : ℕ

-- `DaliChannel.MAX_CHANNEL`
abbrev pub max_channel : ℕ
max_channel = 31

-- `_MISSING_CHANNEL`
abbrev pub missing_channel : ℕ
missing_channel = 29

-- `DaliChannel.__init__`
unfoldable pub new_dali : ℕ → Text → Text → ℕ → Result DaliChannel
new_dali channel name room id =
    if not (between 1 channel max_channel) || channel == missing_channel
    then err value_error
    else ok (record {
      channel = channel;
      name = name;
      room = room;
      apartment_device_id = id;
      mock_level = 0;
    })

unfoldable pub var_level : DaliChannel → Text
unfolding decimal
var_level d = codes "gvlController.aDaliLevel[" ++ decimal d.channel ++ codes "]"

unfoldable pub var_set_level : DaliChannel → Text
unfolding decimal
var_set_level d = codes "gvlController.aDaliSetLevel[" ++ decimal d.channel ++ codes "]"

-- `_var_actual`, also `batch_var`.
unfoldable pub var_actual : DaliChannel → Text
unfolding decimal
var_actual d = codes "gvlController.aDaliActual[" ++ decimal d.channel ++ codes "]"

-- `decode_batch`
unfoldable pub decode_level : Value → ℕ
decode_level raw = byte_to_pct (to_int raw)

module _ {W : Type 0} (p : Pyads W) where
  -- The writes of `set_brightness` on a real PLC.
  unfoldable pub commit_level : DaliChannel → ℕ → M W DaliChannel
  commit_level d level = do
    write p (var_level d) (num (pos level)) plc_byte
    pulse p (var_set_level d)
    pure d

  unfoldable pub set_brightness : DaliChannel → ℤ → M W DaliChannel
  set_brightness d percent = do
    mock ← is_mock
    if mock
        then pure (record d { mock_level = pct_to_byte percent })
        else commit_level d (pct_to_byte percent)

  -- `_DEFAULT_ON_PERCENT` is 100.
  unfoldable pub turn_on : DaliChannel → M W DaliChannel
  turn_on d = set_brightness d (pos 100)

  unfoldable pub turn_off : DaliChannel → M W DaliChannel
  turn_off d = set_brightness d (pos 0)

  unfoldable pub read_actual_level : DaliChannel → M W ℕ
  read_actual_level d = do
    mock ← is_mock
    if mock
        then pure (byte_to_pct (pos d.mock_level))
        else (read p (var_actual d) plc_byte >>= λ raw. pure (decode_level raw))

  -- `fade_to`. The level of a step, `round(start + (target - start) * (i / steps))`, is computed in
  -- floats: it is a parameter. `should_continue i` is what the caller answers before step `i`.
  module _ (level_at : ℕ → ℕ → ℕ → ℕ → ℕ) (should_continue : ℕ → Bool) where
    unfoldable pub fade_steps : ℕ → ℕ → ℕ → ℕ → ℕ → ℕ → DaliChannel → M W DaliChannel
    fade_steps start target steps interval i zero d = pure d
    fade_steps start target steps interval i (suc left) d =
        if not (should_continue i) then pure d else (do
          e ← set_brightness d (pos (level_at start target i steps))
          if ltb i steps then pause p interval else pure tt
          fade_steps start target steps interval (i + 1) left e)

    unfoldable pub fade_to : DaliChannel → ℕ → ℕ → M W DaliChannel
    fade_to d target duration_ms = do
      start ← read_actual_level d
      let steps = max 2 (min 16 (duration_ms / 100))
      if start == target
          then pure d
          else fade_steps start target steps (duration_ms / steps) 1 steps d
