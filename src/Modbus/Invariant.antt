-- ===== src/Modbus/Invariant.antt =====
-- The well-formedness of a ModbusClient, kept by every sequence of calls.
use phone_app.Modbus.Calls.{
  call_stop, call_wake, call_disconnect, call_connect, call_write_curtain, call_write_relay,
  call_write_level, call_read_curtain, call_read_relay, call_read_level, ModbusCall, modbus_run,
  modbus_step,
}
use phone_app.Base.{
  ℕ, ◌≤◌, ◌≡◌, Bool, true, false, not, ◌&&◌, ◌||◌, List, [], ◌∷◌, arith, ltb, Text, length,
}
use phone_app.Base.{is_some, length-take-le}
use phone_app.Base.Int.{pred_ℤ, add_ℕ}
use phone_app.Ads.State.{Outcome, value, exception, add_sample}
use phone_app.Modbus.{
  Reply, error_response, reply, Pymodbus, ModbusClient, new_modbus, record_error, ensure_connected,
  mark_disconnected_and_reconnect, finish_connect, connect, disconnect, reconnect_wake,
  stop_reconnect,
}
use phone_app.Modbus.Points.{
  coil_error, register_error, input_error, level_error, relay_count, count_read, count_write,
  on_client, finish_read, read_one, finish_write, write_one, read_dali_level, write_dali_level,
  read_relay, write_relay, read_curtain, write_curtain_button,
}

-- A real client that counts as connected has a client object and its time; a mock client has none;
-- there is an error message exactly if errors were counted; the latency window holds at most 50.
pub record IsSound (c : ModbusClient) : Type 0 where
  pub live : c.mock || not c.connected || (is_some c.client && is_some c.connected_since) ≡ true
  pub mock_bare : not c.mock || not (is_some c.client) ≡ true
  pub blamed : is_some c.last_error ≡ ltb 0 c.error_count
  pub window : length c.latency_samples ≤ 50

new_modbus-IsSound :
    (ip : Text) (port unit : ℕ) (mock : Bool) → IsSound (new_modbus ip port unit mock)
unfolding new_modbus
new_modbus-IsSound ip port unit mock = ground arith

ensure-IsSound : (c : ModbusClient) → IsSound c → IsSound (ensure_connected c).1
unfolding ensure_connected
ensure-IsSound c v = ground arith

mark-IsSound :
    (msg : Text) (now : ℕ) (c : ModbusClient)
    → IsSound c
    → IsSound (mark_disconnected_and_reconnect msg now c)
unfolding mark_disconnected_and_reconnect
mark-IsSound msg now c v = ground arith

count_read-IsSound : (ms : ℕ) (c : ModbusClient) → IsSound c → IsSound (count_read ms c)
unfolding count_read add_sample
count_read-IsSound ms c v = ground (arith, length-take-le 50 (ms ∷ c.latency_samples))

count_write-IsSound : (c : ModbusClient) → IsSound c → IsSound (count_write c)
unfolding count_write
count_write-IsSound c v = ground arith

module _ {W : Type 0} (p : Pymodbus W) where
  finish_read-IsSound :
      {A : Type 0} (msg : Text) (start : ℕ) (c : ModbusClient) (o : Outcome (Reply A)) (w : W)
      → IsSound c
      → IsSound (finish_read p msg start c (o, w)).1
  unfolding finish_read
  finish_read-IsSound msg start c (exception e) w v = mark-IsSound _ _ c v
  finish_read-IsSound msg start c (value error_response) w v = mark-IsSound _ _ c v
  finish_read-IsSound msg start c (value (reply [])) w v =
      mark-IsSound _ _ _ (count_read-IsSound _ c v)
  finish_read-IsSound msg start c (value (reply (a ∷ rest))) w v = count_read-IsSound _ c v

  finish_write-IsSound :
      (msg : Text) (c : ModbusClient) (o : Outcome Bool) (w : W)
      → IsSound c
      → IsSound (finish_write p msg c (o, w)).1
  unfolding finish_write
  finish_write-IsSound msg c (exception e) w v = mark-IsSound _ _ c v
  finish_write-IsSound msg c (value true) w v = mark-IsSound _ _ c v
  finish_write-IsSound msg c (value false) w v = count_write-IsSound c v

  read_one-IsSound :
      {A : Type 0} (msg : Text) (fn : ℕ → W → Outcome (Reply A) × W) (c : ModbusClient) (w : W)
      → IsSound c
      → IsSound (read_one p msg fn c w).1
  unfolding read_one
  read_one-IsSound msg fn c w v =
      let d = (ensure_connected c).1 in
      let (o, u) = on_client d.client fn w in
      let vd = ensure-IsSound c v in
      ground (arith, vd, finish_read-IsSound msg (p.monotonic w) d o u vd)

  write_one-IsSound :
      (msg : Text) (fn : ℕ → W → Outcome Bool × W) (c : ModbusClient) (w : W)
      → IsSound c
      → IsSound (write_one p msg fn c w).1
  unfolding write_one
  write_one-IsSound msg fn c w v =
      let d = (ensure_connected c).1 in
      let (o, u) = on_client d.client fn w in
      let vd = ensure-IsSound c v in ground (arith, vd, finish_write-IsSound msg d o u vd)

  connect-IsSound : (c : ModbusClient) (w : W) → IsSound c → IsSound (connect p c w).1
  unfolding connect finish_connect record_error
  connect-IsSound c w v = ground arith

  disconnect-IsSound : (c : ModbusClient) (w : W) → IsSound c → IsSound (disconnect p c w).0
  unfolding disconnect
  disconnect-IsSound c w v = ground arith

  wake-IsSound : (c : ModbusClient) (w : W) → IsSound c → IsSound (reconnect_wake p c w).1
  unfolding reconnect_wake
  wake-IsSound c w v =
      let (d, u) = disconnect p c w in
      let vd = disconnect-IsSound c w v in ground (arith, vd, connect-IsSound d u vd)

  step-IsSound :
      (k : ModbusCall) (c : ModbusClient) (w : W) → IsSound c → IsSound (modbus_step p k c w).0
  unfolding modbus_step read_dali_level read_relay read_curtain write_dali_level write_relay
      write_curtain_button stop_reconnect
  step-IsSound (call_read_level ch) c w v = ground (
    arith,
    v,
    read_one-IsSound (level_error (pred_ℤ ch)) (λ k. p.read_input_registers k (pred_ℤ ch) c.unit_id)
        c w v,
  )
  step-IsSound (call_read_relay r) c w v =
      ground (
        arith,
        v,
        read_one-IsSound (input_error r) (λ k. p.read_discrete_inputs k r c.unit_id) c w v,
      )
  step-IsSound (call_read_curtain i) c w v = ground (
    arith,
    v,
    read_one-IsSound (input_error (add_ℕ relay_count i))
        (λ k. p.read_discrete_inputs k (add_ℕ relay_count i) c.unit_id) c w v,
  )
  step-IsSound (call_write_level ch x) c w v = ground (
    arith,
    v,
    write_one-IsSound (register_error (pred_ℤ ch) x)
        (λ k. p.write_register k (pred_ℤ ch) x c.unit_id) c w v,
  )
  step-IsSound (call_write_relay r on) c w v =
      ground
        (arith, v, write_one-IsSound (coil_error r on) (λ k. p.write_coil k r on c.unit_id) c w v)
  step-IsSound (call_write_curtain i on) c w v = ground (
    arith,
    v,
    write_one-IsSound (coil_error (add_ℕ relay_count i) on)
        (λ k. p.write_coil k (add_ℕ relay_count i) on c.unit_id) c w v,
  )
  step-IsSound call_connect c w v = connect-IsSound c w v
  step-IsSound call_disconnect c w v = disconnect-IsSound c w v
  step-IsSound call_wake c w v = wake-IsSound c w v
  step-IsSound call_stop c w v = ground arith

  run-IsSound :
      (ks : List ModbusCall) (c : ModbusClient) (w : W)
      → IsSound c
      → IsSound (modbus_run p ks c w).0
  unfolding modbus_run
  run-IsSound [] c w v = v
  run-IsSound (k ∷ ks) c w v =
      let (d, u) = modbus_step p k c w in run-IsSound ks d u (step-IsSound k c w v)

  -- Whatever the PLC answers, and in whatever order the methods of a new Modbus client are called, also
  -- by the background thread: a real client that counts as connected has a client object and its time,
  -- a mock client has none, there is a last error exactly if errors were counted, and the latency
  -- window holds at most 50 samples.
  pub modbus_run-IsSound :
      (ip : Text) (port unit : ℕ) (mock : Bool) (ks : List ModbusCall) (w : W)
      → IsSound (modbus_run p ks (new_modbus ip port unit mock) w).0
  modbus_run-IsSound ip port unit mock ks w =
      run-IsSound ks (new_modbus ip port unit mock) w (new_modbus-IsSound ip port unit mock)
