-- ===== src/Ads/Failures.antt =====
-- How reads and writes fail: symbol errors, and calls while disconnected.
use phone_app.Ads.Io.{
  lookup_handle, finish_handle, fetch_handle, not_connected, guarded_write, write_batch, read_batch,
  finish_read, write, guarded_read, get_handle, read,
}
use phone_app.Ads.State.{
  ads_error, connection_error, exception, err, Value, Conn, launch_reconnect_thread, PlcType,
  on_exception, ensure_connected, Pyads, AdsClient,
}
use phone_app.Base.{eqb_refl, [], arith, true, some, false, ◌≡◌, ◌⊎◌, List, Text, ℕ}

module _ {W : Type 0} (p : Pyads W) where
  -- ADS errors 1808 and 1809 say that a symbol does not exist: a read that fails so raises
  -- ConnectionError with pyads' message, and leaves the whole client as it was.
  pub read_symbol_error :
      (var : Text) (t : PlcType) (c : AdsClient) (w w' : W) {k : Conn} (code : ℕ) (msg : Text)
      → c.mock ≡ false
      → c.connected ≡ true
      → c.conn ≡ some k
      → (code ≡ 1808) ⊎ (code ≡ 1809)
      → p.read_by_name k var t w ≡ (exception (ads_error (some code) msg), w')
      → read p var t c w ≡ (err (connection_error msg), c, w')
  unfolding read guarded_read finish_read ensure_connected on_exception
  read_symbol_error var t c w w' code msg real up has_conn symbol refused = ground arith

  -- While a real client is disconnected, no read, write or batch touches the PLC: single calls
  -- raise ConnectionError, batch reads answer with nothing, no counter moves, and the reconnect
  -- thread runs afterwards.
  pub disconnected_calls :
      (var : Text) (x : Value) (t : PlcType) (vars : List (Text × PlcType))
      (vals : List (Text × Value)) (c : AdsClient) (w : W)
      → c.mock ≡ false
      → c.connected ≡ false
      → let d = launch_reconnect_thread c in
        (read p var t c w ≡ (err (connection_error not_connected), d, w))
        × (write p var x t c w ≡ (err (connection_error not_connected), d, w))
        × (read_batch p vars c w ≡ ([], d, w))
        × (write_batch p vals c w ≡ (d, w))
        × (d.reconnect_alive ≡ true)
        × (d.error_count ≡ c.error_count)
  unfolding read write read_batch write_batch guarded_read guarded_write ensure_connected
      launch_reconnect_thread
  disconnected_calls var x t vars vals c w real down = ground arith

  -- A handle that was fetched is answered from the cache afterwards, with no further call of pyads.
  pub get_handle-get_handle :
      (var : Text) (c d : AdsClient) (w w' u : W) {h : ℕ}
      → get_handle p var c w ≡ (some h, d, w')
      → get_handle p var d u ≡ (some h, d, u)
  unfolding get_handle fetch_handle finish_handle lookup_handle ensure_connected
  get_handle-get_handle var c d w w' u e = ground (arith, eqb_refl var)
