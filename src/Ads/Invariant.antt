-- ===== src/Ads/Invariant.antt =====
-- The well-formedness of an ADSClient, kept by every sequence of calls.
use phone_app.Base.{
  ℕ, ◌≤◌, ◌≡◌, Bool, true, false, not, ◌&&◌, ◌||◌, Option, none, some, List, [], ◌∷◌, Text, arith,
  ltb, length, length-take-le, is_some, Bool-cases, inl, inr,
}
use phone_app.Ads.State.{
  PlcType, Value, Pyads, AdsClient, Outcome, Exception, value, exception, Conn, add_sample,
  launch_reconnect_thread, ensure_connected, on_exception, new_client,
}
use phone_app.Ads.Io.{
  lookup_handle, count_reads, count_writes, finish_read, finish_write, guarded_read, guarded_write,
  read, write, read_by_handle, write_by_handle, finish_batch, read_batch, finish_write_batch,
  write_batch, fetch_handle, finish_handle, get_handle, on_conn,
}
use phone_app.Ads.Connect.{
  open_then_read, publish, try_auto_route_repair, repair_and_retry, connect, disconnect,
  reconnect_wake, stop_reconnect,
}
use phone_app.Ads.Steps.{
  Call, call_read, call_write, call_read_handle, call_write_handle, call_read_batch,
  call_write_batch, call_get_handle, call_connect, call_disconnect, call_wake, call_stop, step, run,
}

-- A real client that reports a connection has a connection object and the time it was opened; a
-- mock client never has one; there is an error message exactly if errors were counted; and the
-- latency window holds at most 50 samples.
pub record IsValid (c : AdsClient) : Type 0 where
  pub live : c.mock || not c.connected || (is_some c.conn && is_some c.connected_since) ≡ true
  pub mock_bare : not c.mock || not (is_some c.conn) ≡ true
  pub blamed : is_some c.last_error ≡ ltb 0 c.error_count
  pub window : length c.latency_samples ≤ 50

add_sample-le : (ms : ℕ) (xs : List ℕ) → length (add_sample ms xs) ≤ 50
unfolding add_sample
add_sample-le ms xs = length-take-le 50 (ms ∷ xs)

new_client-IsValid :
    (netid ip : Text) (mock : Bool) (port : Option ℕ) → IsValid (new_client netid ip mock port)
unfolding new_client
new_client-IsValid netid ip mock port = ground arith

launch-IsValid : (c : AdsClient) → IsValid c → IsValid (launch_reconnect_thread c)
unfolding launch_reconnect_thread
launch-IsValid c v = ground arith

ensure_connected-IsValid : (c : AdsClient) → IsValid c → IsValid (ensure_connected c).1
unfolding ensure_connected
ensure_connected-IsValid c v = ground arith

on_exception-IsValid :
    (e : Exception) (now : ℕ) (c : AdsClient) → IsValid c → IsValid (on_exception e now c)
unfolding on_exception
on_exception-IsValid e now c v = ground arith

count_reads-IsValid : (n ms : ℕ) (c : AdsClient) → IsValid c → IsValid (count_reads n ms c)
unfolding count_reads
count_reads-IsValid n ms c v = ground (arith, add_sample-le ms c.latency_samples)

count_writes-IsValid : (n : ℕ) (c : AdsClient) → IsValid c → IsValid (count_writes n c)
unfolding count_writes
count_writes-IsValid n c v = ground arith

module _ {W : Type 0} (p : Pyads W) where
  finish_read-IsValid :
      {A : Type 0} (t : ℕ) (c : AdsClient) (o : Outcome A × W)
      → IsValid c
      → IsValid (finish_read p t c o).1
  unfolding finish_read
  finish_read-IsValid t c (value v, w) h = count_reads-IsValid 1 _ c h
  finish_read-IsValid t c (exception e, w) h = on_exception-IsValid e _ c h

  finish_write-IsValid :
      (c : AdsClient) (o : Outcome Unit × W) → IsValid c → IsValid (finish_write p c o).1
  unfolding finish_write
  finish_write-IsValid c (value v, w) h = count_writes-IsValid 1 c h
  finish_write-IsValid c (exception e, w) h = on_exception-IsValid e _ c h

  finish_batch-IsValid :
      (n t : ℕ) (c : AdsClient) (o : Outcome (List (Text × Value)) × W)
      → IsValid c
      → IsValid (finish_batch p n t c o).1
  unfolding finish_batch
  finish_batch-IsValid n t c (value v, w) h = count_reads-IsValid n _ c h
  finish_batch-IsValid n t c (exception e, w) h = on_exception-IsValid e _ c h

  finish_write_batch-IsValid :
      (n : ℕ) (c : AdsClient) (o : Outcome Unit × W)
      → IsValid c
      → IsValid (finish_write_batch p n c o).0
  unfolding finish_write_batch
  finish_write_batch-IsValid n c (value v, w) h = count_writes-IsValid n c h
  finish_write_batch-IsValid n c (exception e, w) h = on_exception-IsValid e _ c h

  guarded_read-IsValid :
      {A : Type 0} (call : Conn → W → Outcome A × W) (c : AdsClient) (w : W)
      → IsValid c
      → IsValid (guarded_read p call c w).1
  unfolding guarded_read
  guarded_read-IsValid call c w h =
      let d = (ensure_connected c).1 in
      let v = ensure_connected-IsValid c h in
      elim (Bool-cases (ensure_connected c).0) [
        | inl up ↦ rw up (finish_read-IsValid (p.monotonic w) d (on_conn d.conn call w) v)
        | inr down ↦ rw down v
      ]

  guarded_write-IsValid :
      (call : Conn → W → Outcome Unit × W) (c : AdsClient) (w : W)
      → IsValid c
      → IsValid (guarded_write p call c w).1
  unfolding guarded_write
  guarded_write-IsValid call c w h =
      let d = (ensure_connected c).1 in
      let v = ensure_connected-IsValid c h in
      elim (Bool-cases (ensure_connected c).0) [
        | inl up ↦ rw up (finish_write-IsValid d (on_conn d.conn call w) v)
        | inr down ↦ rw down v
      ]

  read-IsValid :
      (v : Text) (t : PlcType) (c : AdsClient) (w : W) → IsValid c → IsValid (read p v t c w).1
  unfolding read
  read-IsValid v t c w h =
      ground (arith, guarded_read-IsValid (λ (k : Conn). p.read_by_name k v t) c w h)

  write-IsValid :
      (v : Text) (x : Value) (t : PlcType) (c : AdsClient) (w : W)
      → IsValid c
      → IsValid (write p v x t c w).1
  unfolding write
  write-IsValid v x t c w h =
      ground (arith, guarded_write-IsValid (λ (k : Conn). p.write_by_name k v x t) c w h)

  read_by_handle-IsValid :
      (n : ℕ) (t : PlcType) (c : AdsClient) (w : W)
      → IsValid c
      → IsValid (read_by_handle p n t c w).1
  unfolding read_by_handle
  read_by_handle-IsValid n t c w h =
      ground (arith, guarded_read-IsValid (λ (k : Conn). p.read_handle k n t) c w h)

  write_by_handle-IsValid :
      (n : ℕ) (x : Value) (t : PlcType) (c : AdsClient) (w : W)
      → IsValid c
      → IsValid (write_by_handle p n x t c w).1
  unfolding write_by_handle
  write_by_handle-IsValid n x t c w h =
      ground (arith, guarded_write-IsValid (λ (k : Conn). p.write_handle k n x t) c w h)

  read_batch-IsValid :
      (vs : List (Text × PlcType)) (c : AdsClient) (w : W)
      → IsValid c
      → IsValid (read_batch p vs c w).1
  unfolding read_batch
  read_batch-IsValid vs c w h =
      let d = (ensure_connected c).1 in
      ground (
        arith,
        ensure_connected-IsValid c h,
        finish_batch-IsValid (length vs) (p.monotonic w) d
            (on_conn d.conn (λ (k : Conn). p.read_list_by_name k vs) w),
      )

  write_batch-IsValid :
      (vs : List (Text × Value)) (c : AdsClient) (w : W)
      → IsValid c
      → IsValid (write_batch p vs c w).0
  unfolding write_batch
  write_batch-IsValid vs c w h =
      let d = (ensure_connected c).1 in
      ground (
        arith,
        ensure_connected-IsValid c h,
        finish_write_batch-IsValid (length vs) d
            (on_conn d.conn (λ (k : Conn). p.write_list_by_name k vs) w),
      )

  finish_handle-IsValid :
      (v : Text) (c : AdsClient) (o : Outcome ℕ × W) → IsValid c → IsValid (finish_handle p v c o).1
  unfolding finish_handle
  finish_handle-IsValid v c (value h, w) k = ground arith
  finish_handle-IsValid v c (exception e, w) k = k

  fetch_handle-IsValid :
      (v : Text) (o : Option ℕ) (c : AdsClient) (w : W)
      → IsValid c
      → IsValid (fetch_handle p v o c w).1
  unfolding fetch_handle
  fetch_handle-IsValid v (some h) c w k = k
  fetch_handle-IsValid v none c w k =
      let d = (ensure_connected c).1 in
      ground (
        arith,
        ensure_connected-IsValid c k,
        finish_handle-IsValid v d (on_conn d.conn (λ (n : Conn). p.get_handle n v) w),
      )

  get_handle-IsValid :
      (v : Text) (c : AdsClient) (w : W) → IsValid c → IsValid (get_handle p v c w).1
  unfolding get_handle
  get_handle-IsValid v c w k =
      ground (arith, fetch_handle-IsValid v (lookup_handle v c.handle_cache) c w k)

  publish-IsValid :
      (c : AdsClient) (o : Outcome Conn × W)
      → c.mock ≡ false
      → IsValid c
      → IsValid (publish p c o).1 × ((publish p c o).1.mock ≡ false)
  unfolding publish
  publish-IsValid c (value k, w) m h = ground arith
  publish-IsValid c (exception e, w) m h = ground arith

  try_auto_route_repair-IsValid :
      (c : AdsClient) (w : W)
      → IsValid c
      → IsValid (try_auto_route_repair p c w).1 × ((try_auto_route_repair p c w).1.mock ≡ c.mock)
  unfolding try_auto_route_repair
  try_auto_route_repair-IsValid c w h = ground arith

  repair_and_retry-IsValid :
      (c : AdsClient) (w : W) → c.mock ≡ false → IsValid c → IsValid (repair_and_retry p c w).1
  unfolding repair_and_retry
  repair_and_retry-IsValid c w m h =
      let (_, d, w') = try_auto_route_repair p c w in
      ground (arith, try_auto_route_repair-IsValid c w h, publish-IsValid d (open_then_read p d w'))

  connect-IsValid : (c : AdsClient) (w : W) → IsValid c → IsValid (connect p c w).1
  unfolding connect
  connect-IsValid c w h =
      let (_, d, w') = publish p c (open_then_read p c w) in
      ground (arith, publish-IsValid c (open_then_read p c w), repair_and_retry-IsValid d w')

  disconnect-IsValid : (c : AdsClient) (w : W) → IsValid c → IsValid (disconnect p c w).0
  unfolding disconnect
  disconnect-IsValid c w h = ground arith

  reconnect_wake-IsValid : (c : AdsClient) (w : W) → IsValid c → IsValid (reconnect_wake p c w).1
  unfolding reconnect_wake
  reconnect_wake-IsValid c w h =
      let (d, w') = disconnect p c w in
      ground (arith, connect-IsValid d w' (disconnect-IsValid c w h))

  step-IsValid : (k : Call) (c : AdsClient) (w : W) → IsValid c → IsValid (step p k c w).0
  unfolding step stop_reconnect
  step-IsValid (call_read v t) c w h = read-IsValid v t c w h
  step-IsValid (call_write v x t) c w h = write-IsValid v x t c w h
  step-IsValid (call_read_handle n t) c w h = read_by_handle-IsValid n t c w h
  step-IsValid (call_write_handle n x t) c w h = write_by_handle-IsValid n x t c w h
  step-IsValid (call_read_batch vs) c w h = read_batch-IsValid vs c w h
  step-IsValid (call_write_batch vs) c w h = write_batch-IsValid vs c w h
  step-IsValid (call_get_handle v) c w h = get_handle-IsValid v c w h
  step-IsValid call_connect c w h = connect-IsValid c w h
  step-IsValid call_disconnect c w h = disconnect-IsValid c w h
  step-IsValid call_wake c w h = reconnect_wake-IsValid c w h
  step-IsValid call_stop c w h = ground arith

  run-IsValid : (ks : List Call) (c : AdsClient) (w : W) → IsValid c → IsValid (run p ks c w).0
  unfolding run
  run-IsValid [] c w h = h
  run-IsValid (k ∷ ks) c w h = run-IsValid ks _ _ (step-IsValid k c w h)

  -- Whatever the PLC answers, and in whatever order the methods of a new client are called, also by
  -- the background thread, the client stays well formed: a real client that counts as connected has
  -- a connection and its time, a mock client has none, there is a last error exactly if errors were
  -- counted, and the latency window holds at most 50 samples.
  pub run-new_client-IsValid :
      (netid ip : Text) (mock : Bool) (port : Option ℕ) (ks : List Call) (w : W)
      → IsValid (run p ks (new_client netid ip mock port) w).0
  run-new_client-IsValid netid ip mock port ks w =
      run-IsValid ks _ w (new_client-IsValid netid ip mock port)
