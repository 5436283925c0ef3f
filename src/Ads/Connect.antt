-- ===== src/Ads/Connect.antt =====
-- find_device/plc/ads_client.py: the life of the connection. `connect` with its automatic route
-- repair, `disconnect`, and the background thread that reconnects with exponential back-off.
use phone_app.Base.{
  ℕ, zero, suc, ◌+◌, ◌-◌, ◌*◌, ◌^◌, min, Bool, true, false, not, ◌&&◌, ◌||◌, Option, none, some, [],
  codes, ltb, ◌==◌, eqb, if◌then◌else◌,
}
use phone_app.Ads.State.{
  Exception, ads_error, other, message, Outcome, value, exception, Conn, Pyads, AdsClient,
  record_error,
}
use phone_app.Ads.Io.{release_all_handles}

-- `_ROUTE_REPAIR_COOLDOWN`: ten minutes.
abbrev pub route_repair_cooldown : ℕ
route_repair_cooldown = 600_000

-- `_should_attempt_route_repair`: of the ADS errors only 7, "target machine not found".
unfoldable pub should_attempt_route_repair : Option Exception → Bool
should_attempt_route_repair (some (ads_error (some code) _)) = code == 7
should_attempt_route_repair (some (ads_error none _)) = false
should_attempt_route_repair (some (other _)) = true
should_attempt_route_repair none = true

-- `min(initial * 2^attempt, max_delay)`, in milliseconds. `math.pow(2, attempt)` leaves the range of
-- a float at 1024, where Python raises `OverflowError`.
unfoldable pub reconnect_delay : ℕ → Option ℕ
reconnect_delay attempt = if ltb attempt 1024 then some (min (1000 * 2 ^ attempt) 20_000) else none

-- How the background thread ends: by a `break` or its test, by the `OverflowError`, or not within
-- the fuel.
pub data Ended : Type 0 where
  finished crashed out_of_fuel : Ended

module _ {W : Type 0} (p : Pyads W) where
  open p use {monotonic, getenv}

  -- `pyads.Connection(…).open()` and the first real command, `read_state()`.
  unfoldable pub open_then_read : AdsClient → W → Outcome Conn × W
  open_then_read c w =
      let (r, w') = p.open_conn c.netid c.ads_port c.ip w in
      elim r [
        | exception e ↦ (exception e, w')
        | value k ↦
            let (s, w'') = p.read_state k w' in
            (elim s [ value _ ↦ value k | exception e ↦ exception e ], w'')
      ]

  unfoldable pub publish : AdsClient → Outcome Conn × W → Bool × AdsClient × W
  unfolding record_error
  publish c (value k, w) = (
    true,
    record c {
      conn = some k;
      connected = true;
      connected_since = some (monotonic w);
      last_connect_exc = none;
    },
    w,
  )
  publish c (exception e, w) =
      (false, record_error (message e) (monotonic w) (record c { last_connect_exc = some e }), w)

  -- `_open_and_verify`
  unfoldable pub open_and_verify : AdsClient → W → Bool × AdsClient × W
  unfolding open_then_read publish
  open_and_verify c w = publish c (open_then_read c w)

  -- `username and password and local_netid and local_host`
  unfoldable pub route_configured : W → Bool
  route_configured w =
      not (eqb (getenv (codes "PLC_ROUTE_USERNAME") w) [])
      && not (eqb (getenv (codes "PLC_ROUTE_PASSWORD") w) [])
      && not (eqb (getenv (codes "LOCAL_AMS_NET_ID") w) [])
      && not (eqb (getenv (codes "LOCAL_AMS_HOST") w) [])

  unfoldable pub add_own_route : AdsClient → W → Bool × W
  add_own_route c w =
      let (r, w') =
        p.add_route_to_plc (getenv (codes "LOCAL_AMS_NET_ID") w) (getenv (codes "LOCAL_AMS_HOST") w)
          c.ip (getenv (codes "PLC_ROUTE_USERNAME") w) (getenv (codes "PLC_ROUTE_PASSWORD") w) w in
      (elim r [ value _ ↦ true | exception _ ↦ false ], w')

  -- `_try_auto_route_repair`
  unfoldable pub try_auto_route_repair : AdsClient → W → Bool × AdsClient × W
  unfolding route_configured add_own_route
  try_auto_route_repair c w =
      let now = monotonic w in
      if ltb (now - c.last_route_repair_attempt) route_repair_cooldown
      then (false, c, w)
      else let d : AdsClient = record c { last_route_repair_attempt = now } in
        if route_configured w
        then (let (repaired, w') = add_own_route c w in (repaired, d, w'))
        else (false, d, w)

  -- What `connect` does after the first attempt has failed.
  unfoldable pub repair_and_retry : AdsClient → W → Bool × AdsClient × W
  unfolding should_attempt_route_repair try_auto_route_repair open_and_verify
  repair_and_retry c w =
      let (repaired, c1, w1) : Bool × AdsClient × W =
        if should_attempt_route_repair c.last_connect_exc
        then try_auto_route_repair c w
        else (false, c, w) in
      let (up, c2, w2) : Bool × AdsClient × W =
        if repaired then open_and_verify c1 w1 else (false, c1, w1) in
      if up then (true, c2, w2) else (false, record c2 { conn = none; connected = false }, w2)

  -- `ADSClient.connect`
  unfoldable pub connect : AdsClient → W → Bool × AdsClient × W
  unfolding open_and_verify repair_and_retry
  connect c w =
      if c.mock
      then (true, record c { connected = true; connected_since = some (monotonic w) }, w)
      else if c.connected
      then (true, c, w)
      else let (up, c1, w1) = open_and_verify c w in
        if up then (true, c1, w1) else repair_and_retry c1 w1

  unfoldable pub close_conn : Option Conn → W → W
  close_conn none w = w
  close_conn (some k) w = p.close k w

  -- `ADSClient.disconnect`
  unfoldable pub disconnect : AdsClient → W → AdsClient × W
  unfolding release_all_handles close_conn
  disconnect c w =
      let (d, w') = release_all_handles p c w in
      (record d { conn = none; connected = false; connected_since = none }, close_conn d.conn w')

  -- One trip of `_reconnect_loop` from the end of its wait; true means that the thread ends.
  unfoldable pub reconnect_wake : AdsClient → W → Bool × AdsClient × W
  reconnect_wake c w =
      if c.stop_requested || c.connected
      then (true, record c { reconnect_alive = false }, w)
      else let (c1, w1) = disconnect c w in
        let (up, c2, w2) = connect c1 w1 in
        if up
        then (
          true,
          record c2 { reconnect_count = c2.reconnect_count + 1; reconnect_alive = false },
          w2,
        )
        else (false, c2, w2)

  -- `_reconnect_loop` from a given attempt on, when no other thread interferes.
  unfoldable pub reconnect_loop : ℕ → ℕ → AdsClient → W → Ended × AdsClient × W
  reconnect_loop zero attempt c w = (out_of_fuel, c, w)
  reconnect_loop (suc fuel) attempt c w =
      if c.stop_requested
      then (finished, record c { reconnect_alive = false }, w)
      else elim (reconnect_delay attempt) [
        | none ↦ (crashed, record c { reconnect_alive = false }, w)
        | some delay ↦
            let (done, c', w') = reconnect_wake c (p.sleep delay w) in
            elim done [
              | true ↦ (finished, c', w')
              | false ↦ reconnect_loop fuel (attempt + 1) c' w'
            ]
      ]

-- `stop_reconnect`
unfoldable pub stop_reconnect : AdsClient → AdsClient
stop_reconnect c = record c { stop_requested = true }
