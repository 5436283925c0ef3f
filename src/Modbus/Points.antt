-- ===== src/Modbus/Points.antt =====
-- find_device/plc/modbus_client.py: the register map, the point-level API, and `_read_one` and
-- `_write_one` below it.
use phone_app.Base.{
  decimal, ℕ, ◌+◌, ◌-◌, Bool, true, false, ◌||◌, Option, none, some, [], ◌∷◌, ◌++◌, if◌then◌else◌,
  Text, codes,
}
use phone_app.Base.Int.{ℤ, pos, negsuc, ltb_ℤ, leb_ℤ, pred_ℤ, add_ℕ}
use phone_app.Ads.State.{
  message, other, Outcome, value, exception, add_sample, Result, ok, err, value_error,
}
use phone_app.Modbus.{
  Reply, error_response, reply, Pymodbus, ModbusClient, ensure_connected,
  mark_disconnected_and_reconnect,
}

-- `DALI_CHANNELS`, `RELAY_COUNT` and `CURTAIN_COILS`
abbrev pub dali_channels : ℕ
dali_channels = 16

abbrev pub relay_count : ℕ
relay_count = 4

abbrev pub curtain_coils : ℕ
curtain_coils = 4

-- `self._read_count += 1` with the latency sample.
unfoldable pub count_read : ℕ → ModbusClient → ModbusClient
count_read ms c = record c {
  read_count = c.read_count + 1;
  latency_samples = add_sample ms c.latency_samples;
}

unfoldable pub count_write : ModbusClient → ModbusClient
count_write c = record c { write_count = c.write_count + 1 }

-- The messages of the exceptions that the client raises itself, within its own `try`; the arguments
-- are the address of a read, and the address and the value of a write.
abbrev pub error_reply : Text → Text → Text
error_reply fn_name args = fn_name ++ (codes "(" ++ (args ++ codes ") returned an error response"))

abbrev pub decimal_ℤ : ℤ → Text
decimal_ℤ (pos n) = decimal n
decimal_ℤ (negsuc n) = codes "-" ++ decimal (n + 1)

abbrev pub pair_text : ℤ → Text → Text
pair_text address written = decimal_ℤ address ++ (codes ", " ++ written)

abbrev pub bool_text : Bool → Text
bool_text on = if on then codes "True" else codes "False"

abbrev pub level_error : ℤ → Text
level_error address = error_reply (codes "read_input_registers") (decimal_ℤ address)

abbrev pub input_error : ℤ → Text
input_error address = error_reply (codes "read_discrete_inputs") (decimal_ℤ address)

abbrev pub register_error : ℤ → ℕ → Text
register_error address level =
    error_reply (codes "write_register") (pair_text address (decimal level))

abbrev pub coil_error : ℤ → Bool → Text
coil_error address on = error_reply (codes "write_coil") (pair_text address (bool_text on))

abbrev pub index_error : Text
index_error = codes "list index out of range"

-- A call on `self._client`; on `None` it is an `AttributeError`.
abbrev pub on_client : {W A : Type 0} → Option ℕ → (ℕ → W → Outcome A × W) → W → Outcome A × W
on_client none f w = (exception (other (codes "'NoneType' object has no attribute")), w)
on_client (some k) f w = f k w

module _ {W : Type 0} (p : Pymodbus W) where
  open p use {monotonic}

  -- The `try` of `_read_one`, begun at `start`: the read is counted before its value is taken.
  unfoldable pub finish_read :
      {A : Type 0} → Text → ℕ → ModbusClient → Outcome (Reply A) × W → Option A × ModbusClient × W
  finish_read refusal start c (exception e, w) =
      (none, mark_disconnected_and_reconnect (message e) (monotonic w) c, w)
  finish_read refusal start c (value error_response, w) =
      (none, mark_disconnected_and_reconnect refusal (monotonic w) c, w)
  finish_read refusal start c (value (reply []), w) = (
    none,
    mark_disconnected_and_reconnect index_error (monotonic w) (count_read (monotonic w - start) c),
    w,
  )
  finish_read refusal start c (value (reply (a ∷ rest)), w) =
      (some a, count_read (monotonic w - start) c, w)

  -- `_read_one`; the two functions that it is called with differ in what they read.
  unfoldable pub read_one :
      {A : Type 0}
      → Text
      → (ℕ → W → Outcome (Reply A) × W)
      → ModbusClient
      → W
      → Option A × ModbusClient × W
  read_one refusal fn c w =
      let (up, d) = ensure_connected c in
      if up then finish_read refusal (monotonic w) d (on_client d.client fn w) else (none, d, w)

  -- `result.isError()` is the answer of a write.
  unfoldable pub finish_write : Text → ModbusClient → Outcome Bool × W → Bool × ModbusClient × W
  finish_write refusal c (exception e, w) =
      (false, mark_disconnected_and_reconnect (message e) (monotonic w) c, w)
  finish_write refusal c (value true, w) =
      (false, mark_disconnected_and_reconnect refusal (monotonic w) c, w)
  finish_write refusal c (value false, w) = (true, count_write c, w)

  -- `_write_one`
  unfoldable pub write_one :
      Text → (ℕ → W → Outcome Bool × W) → ModbusClient → W → Bool × ModbusClient × W
  write_one refusal fn c w =
      let (up, d) = ensure_connected c in
      if up then finish_write refusal d (on_client d.client fn w) else (false, d, w)

  abbrev pub returned : {A : Type 0} → A × ModbusClient × W → Result A × ModbusClient × W
  returned (a, c, w) = (ok a, c, w)

  -- `read_dali_level`; a channel out of range is a `ValueError`.
  unfoldable pub read_dali_level : ℤ → ModbusClient → W → Result (Option ℕ) × ModbusClient × W
  read_dali_level channel c w =
      if c.mock
      then (ok none, c, w)
      else if ltb_ℤ channel (pos 1) || ltb_ℤ (pos dali_channels) channel
      then (err value_error, c, w)
      else returned (
          read_one (level_error (pred_ℤ channel))
            (λ k. p.read_input_registers k (pred_ℤ channel) c.unit_id) c w)

  -- `write_dali_level`
  unfoldable pub write_dali_level : ℤ → ℕ → ModbusClient → W → Result Bool × ModbusClient × W
  write_dali_level channel level c w =
      if c.mock
      then (ok true, c, w)
      else if ltb_ℤ channel (pos 1) || ltb_ℤ (pos dali_channels) channel
      then (err value_error, c, w)
      else returned (
          write_one (register_error (pred_ℤ channel) level)
            (λ k. p.write_register k (pred_ℤ channel) level c.unit_id) c w)

  -- `read_relay`; a number out of range is a `ValueError`.
  unfoldable pub read_relay : ℤ → ModbusClient → W → Result (Option Bool) × ModbusClient × W
  read_relay relay c w =
      if c.mock
      then (ok none, c, w)
      else if ltb_ℤ relay (pos 0) || leb_ℤ (pos relay_count) relay
      then (err value_error, c, w)
      else returned
          (read_one (input_error relay) (λ k. p.read_discrete_inputs k relay c.unit_id) c w)

  -- `write_relay`
  unfoldable pub write_relay : ℤ → Bool → ModbusClient → W → Result Bool × ModbusClient × W
  write_relay relay on c w =
      if c.mock
      then (ok true, c, w)
      else if ltb_ℤ relay (pos 0) || leb_ℤ (pos relay_count) relay
      then (err value_error, c, w)
      else returned (write_one (coil_error relay on) (λ k. p.write_coil k relay on c.unit_id) c w)

  -- `read_curtain`
  unfoldable pub read_curtain : ℤ → ModbusClient → W → Result (Option Bool) × ModbusClient × W
  read_curtain index c w =
      if c.mock
      then (ok none, c, w)
      else if ltb_ℤ index (pos 0) || leb_ℤ (pos curtain_coils) index
      then (err value_error, c, w)
      else returned (
          read_one (input_error (add_ℕ relay_count index))
            (λ k. p.read_discrete_inputs k (add_ℕ relay_count index) c.unit_id) c w)

  -- `write_curtain_button`
  unfoldable pub write_curtain_button : ℤ → Bool → ModbusClient → W → Result Bool × ModbusClient × W
  write_curtain_button index on c w =
      if c.mock
      then (ok true, c, w)
      else if ltb_ℤ index (pos 0) || leb_ℤ (pos curtain_coils) index
      then (err value_error, c, w)
      else returned (
          write_one (coil_error (add_ℕ relay_count index) on)
            (λ k. p.write_coil k (add_ℕ relay_count index) on c.unit_id) c w)
