-- ===== src/Modbus.antt =====
-- find_device/plc/modbus_client.py: `class ModbusClient`, each method as the code under its lock. The
-- reading and writing of points is in Modbus.Points. Times are in milliseconds.
pub mod Points
pub mod Calls
pub mod Invariant
pub mod Bounds
use phone_app.Base.{
  ℕ, zero, suc, ◌+◌, ◌-◌, ◌*◌, ◌≤◌, ◌<◌, ◌≡◌, ◌≢◌, ◌⊎◌, inl, inr, refl, sym, ap, ◌∙◌, Bool, true,
  false, not, ◌&&◌, ◌||◌, Option, none, some, List, [], ◌∷◌, ◌++◌, map, arith, tests, ltb, leb,
  ◌==◌, if◌then◌else◌, Bool-cases, Option-cases, Text, codes, eqb, length,
}
use phone_app.Base.{min, ◌^◌, decimal}
use phone_app.Base.Int.{ℤ}
use phone_app.Ads.State.{Exception, message, other, Outcome, value, exception, add_sample}
use phone_app.Ads.Connect.{Ended, finished, crashed, out_of_fuel}

-- A response of pymodbus: `isError()`, or its list of registers or bits.
pub data Reply (A : Type 0) : Type 0 where
  error_response : Reply A
  reply : List A → Reply A

-- pymodbus and the clock, over the state `W` of the world outside the process. `open_client` is the
-- constructor and `connect()`; it answers with the client object, known by a number, and whether the
-- socket is open.
pub record Pymodbus (W : Type 0) : Type 0 where
  pub monotonic : W → ℕ
  pub sleep : ℕ → W → W
  pub open_client : Text → ℕ → W → Outcome (ℕ × Bool) × W
  pub close : ℕ → W → W
  pub read_input_registers : ℕ → ℤ → ℕ → W → Outcome (Reply ℕ) × W
  pub read_discrete_inputs : ℕ → ℤ → ℕ → W → Outcome (Reply Bool) × W
  pub write_register : ℕ → ℤ → ℕ → ℕ → W → Outcome Bool × W
  pub write_coil : ℕ → ℤ → Bool → ℕ → W → Outcome Bool × W

pub record ModbusClient : Type 0 where
  pub ip : Text
  pub port : ℕ
  pub unit_id : ℕ
  pub mock : Bool
  pub client : Option ℕ
  pub connected : Bool
  pub connected_since : Option ℕ
  pub read_count : ℕ
  pub write_count : ℕ
  pub error_count : ℕ
  pub reconnect_count : ℕ
  pub latency_samples : List ℕ
  pub last_error : Option Text
  pub last_error_time : Option ℕ
  -- Is the background thread alive, and is its stop event set?
  pub reconnect_alive : Bool
  pub stop_requested : Bool

-- `ModbusClient.__init__`; the defaults are port 502 and unit 1.
unfoldable pub new_modbus : Text → ℕ → ℕ → Bool → ModbusClient
new_modbus ip port unit_id mock = record {
  ip = ip;
  port = port;
  unit_id = unit_id;
  mock = mock;
  client = none;
  connected = false;
  connected_since = none;
  read_count = 0;
  write_count = 0;
  error_count = 0;
  reconnect_count = 0;
  latency_samples = [];
  last_error = none;
  last_error_time = none;
  reconnect_alive = false;
  stop_requested = false;
}

-- `_record_error`
unfoldable pub record_error : Text → ℕ → ModbusClient → ModbusClient
record_error msg now c = record c {
  error_count = c.error_count + 1;
  last_error = some msg;
  last_error_time = some now;
}

-- `_launch_reconnect_thread`
unfoldable pub launch_reconnect_thread : ModbusClient → ModbusClient
launch_reconnect_thread c =
    if c.reconnect_alive then c else record c { reconnect_alive = true; stop_requested = false }

-- `_ensure_connected`
unfoldable pub ensure_connected : ModbusClient → Bool × ModbusClient
unfolding launch_reconnect_thread
ensure_connected c = if c.connected then (true, c) else (false, launch_reconnect_thread c)

-- `_mark_disconnected_and_reconnect`
unfoldable pub mark_disconnected_and_reconnect : Text → ℕ → ModbusClient → ModbusClient
unfolding record_error launch_reconnect_thread
mark_disconnected_and_reconnect reason now c =
    launch_reconnect_thread (record_error reason now (record c { connected = false }))

-- `min(initial * 2^attempt, max_delay)` with a maximum of 60 s; see `Ads.Connect.reconnect_delay`.
unfoldable pub reconnect_delay : ℕ → Option ℕ
reconnect_delay attempt = if ltb attempt 1024 then some (min (1000 * 2 ^ attempt) 60_000) else none

-- The error of a socket that does not open.
abbrev pub not_opened : ModbusClient → Text
not_opened c =
    codes "could not open Modbus TCP socket to " ++ (c.ip ++ (codes ":" ++ decimal c.port))

module _ {W : Type 0} (p : Pymodbus W) where
  open p use {monotonic}

  -- The `try` of `connect`.
  unfoldable pub finish_connect : ModbusClient → Outcome (ℕ × Bool) × W → Bool × ModbusClient × W
  unfolding record_error
  finish_connect c (exception e, w) = (false, record_error (message e) (monotonic w) c, w)
  finish_connect c (value (k, false), w) = (false, record_error (not_opened c) (monotonic w) c, w)
  finish_connect c (value (k, true), w) = (
    true,
    record c { client = some k; connected = true; connected_since = some (monotonic w) },
    w,
  )

  -- `ModbusClient.connect`
  unfoldable pub connect : ModbusClient → W → Bool × ModbusClient × W
  unfolding finish_connect
  connect c w =
      if c.mock
      then (true, record c { connected = true; connected_since = some (monotonic w) }, w)
      else if c.connected
      then (true, c, w)
      else finish_connect c (p.open_client c.ip c.port w)

  unfoldable pub close_client : Option ℕ → W → W
  close_client none w = w
  close_client (some k) w = p.close k w

  -- `ModbusClient.disconnect`
  unfoldable pub disconnect : ModbusClient → W → ModbusClient × W
  unfolding close_client
  disconnect c w = (
    record c { client = none; connected = false; connected_since = none },
    close_client c.client w,
  )

  -- One trip of `_reconnect_loop` from the end of its wait; true means that the thread ends.
  unfoldable pub reconnect_wake : ModbusClient → W → Bool × ModbusClient × W
  reconnect_wake c w =
      if c.stop_requested || c.connected
      then (true, record c { reconnect_alive = false }, w)
      else let (c1, w1) = disconnect c w in
        let (up, c2, w2) = connect c1 w1 in
        if up
        then (
          true,
          record c2 { reconnect_count = c2.reconnect_count + 1; reconnect_alive = false },
          w2,
        )
        else (false, c2, w2)

  -- `_reconnect_loop` from a given attempt on, when no other thread interferes.
  unfoldable pub reconnect_loop : ℕ → ℕ → ModbusClient → W → Ended × ModbusClient × W
  reconnect_loop zero attempt c w = (out_of_fuel, c, w)
  reconnect_loop (suc fuel) attempt c w =
      if c.stop_requested
      then (finished, record c { reconnect_alive = false }, w)
      else elim (reconnect_delay attempt) [
        | none ↦ (crashed, record c { reconnect_alive = false }, w)
        | some delay ↦
            let (done, c', w') = reconnect_wake c (p.sleep delay w) in
            elim done [
              | true ↦ (finished, c', w')
              | false ↦ reconnect_loop fuel (attempt + 1) c' w'
            ]
      ]

-- `stop_reconnect`
unfoldable pub stop_reconnect : ModbusClient → ModbusClient
stop_reconnect c = record c { stop_requested = true }
