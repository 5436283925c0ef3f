-- ===== src/Ads/Io.antt =====
-- find_device/plc/ads_client.py: reads and writes by name, in batches and by handle, and the cache
-- of symbol handles. Each method is the code under its lock, from the guard to the `except` block.
use phone_app.Base.{
  ℕ, ◌+◌, ◌-◌, Option, none, some, List, [], ◌∷◌, Text, codes, eqb, length, if◌then◌else◌,
}
use phone_app.Ads.State.{
  PlcType, Value, Outcome, value, exception, other, message, Conn, Pyads, AdsClient, runtime_error,
  connection_error, Result, ok, err, add_sample, ensure_connected, on_exception, M,
}

-- The `ConnectionError` of a client that is not connected.
abbrev pub not_connected : Text
not_connected = codes "ADS not connected"

-- A call on `self._conn`; on `None` it is an `AttributeError`.
abbrev pub on_conn : {W A : Type 0} → Option Conn → (Conn → W → Outcome A × W) → W → Outcome A × W
on_conn none call w = (exception (other (codes "'NoneType' object has no attribute")), w)
on_conn (some k) call w = call k w

-- `self._latency_samples.append(elapsed_ms)` and `self._read_count += n`.
unfoldable pub count_reads : ℕ → ℕ → AdsClient → AdsClient
unfolding add_sample
count_reads n elapsed c = record c {
  latency_samples = add_sample elapsed c.latency_samples;
  read_count = c.read_count + n;
}

unfoldable pub count_writes : ℕ → AdsClient → AdsClient
count_writes n c = record c { write_count = c.write_count + n }

module _ {W : Type 0} (p : Pyads W) where
  open p use {monotonic}

  -- The `try`/`except` of the readers that raise, begun at `start`.
  unfoldable pub finish_read :
      {A : Type 0} → ℕ → AdsClient → Outcome A × W → Result A × AdsClient × W
  unfolding count_reads on_exception
  finish_read start c (value v, w) = (ok v, count_reads 1 (monotonic w - start) c, w)
  finish_read start c (exception e, w) =
      (err (connection_error (message e)), on_exception e (monotonic w) c, w)

  unfoldable pub finish_write : AdsClient → Outcome Unit × W → Result Unit × AdsClient × W
  unfolding count_writes on_exception
  finish_write c (value v, w) = (ok v, count_writes 1 c, w)
  finish_write c (exception e, w) =
      (err (connection_error (message e)), on_exception e (monotonic w) c, w)

  -- The readers and writers that raise differ only in their call of pyads.
  unfoldable pub guarded_read : {A : Type 0} → (Conn → W → Outcome A × W) → M W A
  unfolding finish_read ensure_connected
  guarded_read call c w =
      let (up, d) = ensure_connected c in
      if up
      then finish_read (monotonic w) d (on_conn d.conn call w)
      else (err (connection_error not_connected), d, w)

  unfoldable pub guarded_write : (Conn → W → Outcome Unit × W) → M W Unit
  unfolding finish_write ensure_connected
  guarded_write call c w =
      let (up, d) = ensure_connected c in
      if up
      then finish_write d (on_conn d.conn call w)
      else (err (connection_error not_connected), d, w)

  -- `ADSClient.read`
  unfoldable pub read : Text → PlcType → M W Value
  unfolding guarded_read
  read var plctype c w =
      if c.mock
      then (err runtime_error, c, w)
      else guarded_read (λ k. p.read_by_name k var plctype) c w

  -- `ADSClient.write`: in mock mode nothing happens.
  unfoldable pub write : Text → Value → PlcType → M W Unit
  unfolding guarded_write
  write var v plctype c w =
      if c.mock then (ok tt, c, w) else guarded_write (λ k. p.write_by_name k var v plctype) c w

  -- `ADSClient.read_by_handle`
  unfoldable pub read_by_handle : ℕ → PlcType → M W Value
  unfolding guarded_read
  read_by_handle handle plctype c w =
      if c.mock
      then (err runtime_error, c, w)
      else guarded_read (λ k. p.read_handle k handle plctype) c w

  -- `ADSClient.write_by_handle`
  unfoldable pub write_by_handle : ℕ → Value → PlcType → M W Unit
  unfolding guarded_write
  write_by_handle handle v plctype c w =
      if c.mock then (ok tt, c, w) else guarded_write (λ k. p.write_handle k handle v plctype) c w

  -- The batch calls do not raise: a failure is the empty dict.
  unfoldable pub finish_batch :
      ℕ → ℕ → AdsClient → Outcome (List (Text × Value)) × W → List (Text × Value) × AdsClient × W
  unfolding count_reads on_exception
  finish_batch n start c (value vs, w) = (vs, count_reads n (monotonic w - start) c, w)
  finish_batch n start c (exception e, w) = ([], on_exception e (monotonic w) c, w)

  -- `ADSClient.read_batch`
  unfoldable pub read_batch :
      List (Text × PlcType) → AdsClient → W → List (Text × Value) × AdsClient × W
  unfolding finish_batch ensure_connected
  read_batch vars c w =
      if c.mock
      then ([], c, w)
      else let (up, d) = ensure_connected c in
        if up
        then finish_batch (length vars) (monotonic w) d
            (on_conn d.conn (λ k. p.read_list_by_name k vars) w)
        else ([], d, w)

  unfoldable pub finish_write_batch : ℕ → AdsClient → Outcome Unit × W → AdsClient × W
  unfolding count_writes on_exception
  finish_write_batch n c (value _, w) = (count_writes n c, w)
  finish_write_batch n c (exception e, w) = (on_exception e (monotonic w) c, w)

  -- `ADSClient.write_batch`
  unfoldable pub write_batch : List (Text × Value) → AdsClient → W → AdsClient × W
  unfolding finish_write_batch ensure_connected
  write_batch vals c w =
      if c.mock
      then (c, w)
      else let (up, d) = ensure_connected c in
        if up
        then finish_write_batch (length vals) d
            (on_conn d.conn (λ k. p.write_list_by_name k vals) w)
        else (d, w)

-- `self._handle_cache[var_name]`
unfoldable pub lookup_handle : Text → List (Text × ℕ) → Option ℕ
lookup_handle var [] = none
lookup_handle var ((v, h) ∷ cache) = if eqb var v then some h else lookup_handle var cache

module _ {W : Type 0} (p : Pyads W) where
  -- A miss that is answered is cached; a failure is reported as `None`, and changes nothing.
  unfoldable pub finish_handle : Text → AdsClient → Outcome ℕ × W → Option ℕ × AdsClient × W
  finish_handle var c (value h, w) =
      (some h, record c { handle_cache = (var, h) ∷ c.handle_cache }, w)
  finish_handle var c (exception e, w) = (none, c, w)

  unfoldable pub fetch_handle : Text → Option ℕ → AdsClient → W → Option ℕ × AdsClient × W
  unfolding finish_handle ensure_connected
  fetch_handle var (some h) c w = (some h, c, w)
  fetch_handle var none c w =
      let (up, d) = ensure_connected c in
      if up then finish_handle var d (on_conn d.conn (λ k. p.get_handle k var) w) else (none, d, w)

  -- `ADSClient.get_handle`
  unfoldable pub get_handle : Text → AdsClient → W → Option ℕ × AdsClient × W
  unfolding fetch_handle lookup_handle
  get_handle var c w =
      if c.mock then (none, c, w) else fetch_handle var (lookup_handle var c.handle_cache) c w

  unfoldable pub release_each : Option Conn → List (Text × ℕ) → W → W
  release_each none cache w = w
  release_each (some k) [] w = w
  release_each (some k) ((_, h) ∷ cache) w = release_each (some k) cache (p.release_handle k h w)

  -- `ADSClient.release_all_handles`: the local cache is cleared in any case.
  unfoldable pub release_all_handles : AdsClient → W → AdsClient × W
  unfolding release_each
  release_all_handles c w =
      (record c { handle_cache = [] }, (if c.mock then w else release_each c.conn c.handle_cache w))
