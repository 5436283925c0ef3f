-- ===== src/Registry/Fallback.antt =====
-- find_device/plc/registry.py: the reads and writes that fall back to Modbus, and the filling of gaps.
-- Both clients live in one outside world: `p` is pyads and `q` pymodbus over it.
use phone_app.Base.{
  ℕ, Bool, true, false, not, ◌&&◌, ◌||◌, Option, none, some, List, [], ◌∷◌, ◌++◌, if◌then◌else◌,
  Text, codes,
}
use phone_app.Base.{get_at, put_at, between, decimal}
use phone_app.Base.Int.{ℤ, pos, pred_ℤ}
use phone_app.Ads.State.{Pyads, connection_error, value_error, Result, ok, err}
use phone_app.Devices.Levels.{pct_to_byte, byte_to_pct}
use phone_app.Devices.Dali.{DaliChannel, set_brightness, read_actual_level}
use phone_app.Devices.Relays.{WallRelay, set_relay, read_relay}
use phone_app.Modbus.{Pymodbus, ModbusClient}
use phone_app.Modbus.Points as Points
use phone_app.Registry.{Registry, Action, on_ads}

-- `_modbus_ready`, also `modbus_connected`.
unfoldable pub is_ready : Option ModbusClient → Bool
is_ready none = false
is_ready (some m) = m.connected

-- The errors of a write that both paths refuse.
abbrev pub dali_refused : ℕ → Text
dali_refused channel =
    codes "DALI ch" ++ (decimal channel ++ codes ": both ADS and Modbus writes failed")

abbrev pub relay_refused : ℕ → Text
relay_refused channel =
    codes "Relay ch" ++ (decimal channel ++ codes ": both ADS and Modbus writes failed")

module _ {W : Type 0} (p : Pyads W) (q : Pymodbus W) where
  -- A call on `self._modbus`, which is there where it is ready.
  unfoldable pub on_modbus :
      {A : Type 0}
      → (ModbusClient → W → Result A × ModbusClient × W)
      → Option ModbusClient
      → Action W A
  on_modbus f none r w = (err value_error, r, w)
  on_modbus f (some m) r w = let (x, n, u) = f m w in (x, record r { modbus = some n }, u)

  abbrev pub level_of : Option ℕ → Option ℕ
  level_of none = none
  level_of (some raw) = some (byte_to_pct (pos raw))

  abbrev pub level_read : Result (Option ℕ) × Registry × W → Result (Option ℕ) × Registry × W
  level_read (ok raw, r, w) = (ok (level_of raw), r, w)
  level_read (err e, r, w) = (err e, r, w)

  -- The end of `read_dali_actual_pct`, after the try.
  unfoldable pub after_read_dali : ℕ → Result ℕ × Registry × W → Result (Option ℕ) × Registry × W
  after_read_dali channel (ok level, r, w) = (ok (some level), r, w)
  after_read_dali channel (err e, r, w) =
      if is_ready r.modbus && between 1 channel 16
      then level_read (on_modbus (Points.read_dali_level q (pos channel)) r.modbus r w)
      else (err e, r, w)

  unfoldable pub read_dali_of : ℕ → Option DaliChannel → Action W (Option ℕ)
  read_dali_of channel none r w = (ok none, r, w)
  read_dali_of channel (some d) r w = after_read_dali channel (on_ads (read_actual_level p d) r w)

  -- `read_dali_actual_pct`
  unfoldable pub read_dali_actual_pct : ℕ → Action W (Option ℕ)
  read_dali_actual_pct channel r w = read_dali_of channel (get_at channel r.dali) r w

  -- What a write makes of the answer of Modbus.
  abbrev pub accepted : Text → Result Bool × Registry × W → Result Unit × Registry × W
  accepted refused (ok true, r, w) = (ok tt, r, w)
  accepted refused (ok false, r, w) = (err (connection_error refused), r, w)
  accepted refused (err e, r, w) = (err e, r, w)

  unfoldable pub after_write_dali :
      ℕ → ℤ → Result DaliChannel × Registry × W → Result Unit × Registry × W
  after_write_dali channel percent (ok d, r, w) =
      (ok tt, record r { dali = put_at channel d r.dali }, w)
  after_write_dali channel percent (err e, r, w) =
      if is_ready r.modbus && between 1 channel 16
      then accepted (dali_refused channel)
          (on_modbus (Points.write_dali_level q (pos channel) (pct_to_byte percent)) r.modbus r w)
      else (err e, r, w)

  unfoldable pub write_dali_of : ℕ → ℤ → Option DaliChannel → Action W Unit
  write_dali_of channel percent none r w = (err value_error, r, w)
  write_dali_of channel percent (some d) r w =
      after_write_dali channel percent (on_ads (set_brightness p d percent) r w)

  -- `write_dali_brightness`
  unfoldable pub write_dali_brightness : ℕ → ℤ → Action W Unit
  write_dali_brightness channel percent r w =
      write_dali_of channel percent (get_at channel r.dali) r w

  -- `read_relay_actual`
  unfoldable pub after_read_relay :
      ℕ → Result Bool × Registry × W → Result (Option Bool) × Registry × W
  after_read_relay channel (ok on, r, w) = (ok (some on), r, w)
  after_read_relay channel (err e, r, w) =
      if is_ready r.modbus && between 1 channel 4
      then on_modbus (Points.read_relay q (pred_ℤ (pos channel))) r.modbus r w
      else (err e, r, w)

  unfoldable pub read_relay_of : ℕ → Option WallRelay → Action W (Option Bool)
  read_relay_of channel none r w = (ok none, r, w)
  read_relay_of channel (some d) r w = after_read_relay channel (on_ads (read_relay p d) r w)

  unfoldable pub read_relay_actual : ℕ → Action W (Option Bool)
  read_relay_actual channel r w = read_relay_of channel (get_at channel r.relays) r w

  -- `write_relay_state`
  unfoldable pub after_write_relay :
      ℕ → Bool → Result WallRelay × Registry × W → Result Unit × Registry × W
  after_write_relay channel on (ok d, r, w) =
      (ok tt, record r { relays = put_at channel d r.relays }, w)
  after_write_relay channel on (err e, r, w) =
      if is_ready r.modbus && between 1 channel 4
      then accepted (relay_refused channel)
          (on_modbus (Points.write_relay q (pred_ℤ (pos channel)) on) r.modbus r w)
      else (err e, r, w)

  unfoldable pub write_relay_of : ℕ → Bool → Option WallRelay → Action W Unit
  write_relay_of channel on none r w = (err value_error, r, w)
  write_relay_of channel on (some d) r w =
      after_write_relay channel on (on_ads (set_relay p d on) r w)

  unfoldable pub write_relay_state : ℕ → Bool → Action W Unit
  write_relay_state channel on r w = write_relay_of channel on (get_at channel r.relays) r w

-- What the registry read of its devices: a value, or `None`, for each key, in the order of the dict.
abbrev pub Readings : Type 0 → Type 0
Readings A = List (ℕ × Option A)

abbrev pub known : {A : Type 0} → Option (Option A) → Bool
known none = false
known (some none) = false
known (some (some a)) = true

abbrev pub or_kept : {A : Type 0} → ℕ → Readings A → Option A → Readings A
or_kept k filled none = filled
or_kept k filled (some a) = put_at k (some a) filled

-- A number that Modbus does not read is `None`; its `ValueError` is ruled out by the guard.
abbrev pub read_value : {A : Type 0} → Result (Option A) → Option A
read_value (ok a) = a
read_value (err e) = none

-- The loop of the two fillings over the keys of the devices; `read` is the read of a point.
unfoldable pub fill_gaps :
    {W A : Type 0}
    → ℕ
    → (ℕ → ModbusClient → W → Result (Option A) × ModbusClient × W)
    → List ℕ
    → Readings A
    → ModbusClient
    → W
    → Readings A × ModbusClient × W
fill_gaps limit read [] filled m w = (filled, m, w)
fill_gaps limit read (k ∷ ks) filled m w =
    elim (known (get_at k filled) || not (between 1 k limit)) [
      | true ↦ fill_gaps limit read ks filled m w
      | false ↦
          let (x, n, u) = read k m w in
          fill_gaps limit read ks (or_kept k filled (read_value x)) n u
    ]

module _ {W : Type 0} (q : Pymodbus W) where
  abbrev pub as_pct : Result (Option ℕ) → Result (Option ℕ)
  as_pct (ok none) = ok none
  as_pct (ok (some raw)) = ok (some (byte_to_pct (pos raw)))
  as_pct (err e) = err e

  abbrev pub read_pct : ℕ → ModbusClient → W → Result (Option ℕ) × ModbusClient × W
  read_pct k m w = let (x, n, u) = Points.read_dali_level q (pos k) m w in (as_pct x, n, u)

  -- `_fill_dali_gaps_from_modbus` and `_fill_relay_gaps_from_modbus`, on the keys of the dict.
  unfoldable pub fill_dali_gaps :
      List ℕ → Readings ℕ → Option ModbusClient → W → Readings ℕ × Option ModbusClient × W
  unfolding fill_gaps
  fill_dali_gaps keys levels none w = (levels, none, w)
  fill_dali_gaps keys levels (some m) w =
      if m.connected
      then (let (filled, n, u) = fill_gaps 16 read_pct keys levels m w in (filled, some n, u))
      else (levels, some m, w)

  unfoldable pub fill_relay_gaps :
      List ℕ → Readings Bool → Option ModbusClient → W → Readings Bool × Option ModbusClient × W
  unfolding fill_gaps
  fill_relay_gaps keys states none w = (states, none, w)
  fill_relay_gaps keys states (some m) w =
      if m.connected
      then (let (filled, n, u) =
            fill_gaps 4 (λ k. Points.read_relay q (pred_ℤ (pos k))) keys states m w in
          (filled, some n, u))
      else (states, some m, w)
