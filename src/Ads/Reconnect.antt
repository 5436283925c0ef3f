-- ===== src/Ads/Reconnect.antt =====
-- The back-off of the reconnect thread, its end, and the route repair.
use phone_app.Ads.State.{exception, Exception, record_error, AdsClient, Pyads}
use phone_app.Ads.Connect.{
  route_repair_cooldown, should_attempt_route_repair, open_then_read, try_auto_route_repair,
  publish, open_and_verify, repair_and_retry, connect, reconnect_wake, out_of_fuel, reconnect_loop,
  reconnect_delay,
}
use native.Mathlib.Nat.{pow-suc, pow-le-pow_right}
use phone_app.Base.{
  min, ◌^◌, ltb→ge, ltb→lt, ℕ, zero, suc, ◌+◌, ◌-◌, ◌*◌, ◌≤◌, ◌<◌, ◌≡◌, ◌≢◌, ◌⊎◌, inl, inr, false,
  none, some, arith, ltb, Bool-cases,
}

one-le-pow : (n : ℕ) → 1 ≤ 2 ^ n
one-le-pow zero = omega arith
one-le-pow (suc n) = rw pow-suc (omega (arith, one-le-pow n))

thirty_two-le-pow : (n : ℕ) → 5 ≤ n → 32 ≤ 2 ^ n
thirty_two-le-pow n h = pow-le-pow_right {n = 2} (omega arith) h

-- The wait before an attempt is at least one second and at most twenty, is twenty from the sixth
-- attempt on, and does not exist from the 1025th on, where Python's float power overflows.
pub reconnect_delay_bounds :
    (attempt : ℕ)
    → (reconnect_delay attempt ≡ none) × (1024 ≤ attempt)
      ⊎ ((delay : ℕ) × (reconnect_delay attempt ≡ some delay)
          × (attempt < 1024)
          × (1000 ≤ delay)
          × (delay ≤ 20_000)
          × ((attempt < 5) ⊎ (delay ≡ 20_000)))
unfolding reconnect_delay
reconnect_delay_bounds attempt = elim (Bool-cases (ltb attempt 1024)) [
  | inr late ↦ inl (rw late, ltb→ge attempt 1024 late)
  | inl early ↦ inr (
    min (1000 * 2 ^ attempt) 20_000,
    rw early,
    ltb→lt attempt 1024 early,
    omega (arith, one-le-pow attempt),
    omega arith,
    elim (Bool-cases (ltb attempt 5)) [
      | inl few ↦ inl (ltb→lt attempt 5 few)
      | inr many ↦ inr (omega (arith, thirty_two-le-pow attempt (ltb→ge attempt 5 many)))
    ],
  )
]

module _ {W : Type 0} (p : Pyads W) where
  loop_ends :
      (fuel attempt : ℕ) (c : AdsClient) (w : W)
      → attempt ≤ 1024
      → 1025 ≤ fuel + attempt
      → (reconnect_loop p fuel attempt c w).0 ≢ out_of_fuel
  unfolding reconnect_loop reconnect_delay
  loop_ends zero attempt c w small h = absurd (omega arith)
  loop_ends (suc fuel) attempt c w small h =
      let (_, d, w') = reconnect_wake p c (p.sleep (min (1000 * 2 ^ attempt) 20_000) w) in
      ground (arith, loop_ends fuel (attempt + 1) d w')

  -- Whatever the PLC does, the reconnect thread ends, by itself or by the overflow, after at most
  -- 1025 rounds from a fresh start.
  pub reconnect_loop_terminates :
      (c : AdsClient) (w : W) → (reconnect_loop p 1025 0 c w).0 ≢ out_of_fuel
  reconnect_loop_terminates c w = loop_ends 1025 0 c w (omega arith) (omega arith)

  -- When a disconnected real client cannot open the connection, and the failure is no missing route
  -- or the last repair is less than ten minutes old, `connect` gives up after that one attempt: the
  -- outside world is as that attempt left it, so no route was added, one error is counted, the
  -- client has no connection, and the time of the last repair stands.
  pub connect_no_repair :
      (c : AdsClient) (w w' : W) (e : Exception)
      → c.mock ≡ false
      → c.connected ≡ false
      → open_then_read p c w ≡ (exception e, w')
      → (should_attempt_route_repair (some e) ≡ false)
        ⊎ (p.monotonic w' - c.last_route_repair_attempt < route_repair_cooldown)
      → let (up, d, after) = connect p c w in
        (up ≡ false)
        × (after ≡ w')
        × (d.error_count ≡ c.error_count + 1)
        × (d.connected ≡ false)
        × (d.conn ≡ none)
        × (d.last_route_repair_attempt ≡ c.last_route_repair_attempt)
  unfolding connect repair_and_retry open_and_verify publish try_auto_route_repair record_error
  connect_no_repair c w w' e real down failed hopeless = ground arith
