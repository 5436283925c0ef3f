-- ===== src/Realtime/Lockout.antt =====
-- What streams that are closed before their first `next` leave behind.
use phone_app.Base.{
  ℕ, ◌+◌, ◌≤◌, ◌<◌, ◌≡◌, ◌≢◌, sym, ◌∙◌, true, Option, none, some, List, [], ◌∷◌, arith, Text,
  length,
}
use phone_app.Base.{subst, eqb_refl}
use phone_app.Realtime.{count, Realtime, Rows}
use phone_app.Realtime.Streams.{
  may_watch, streaming, open_checked, sse_stream, find_stream, set_status, close_of, close_stream,
  StreamCall, call_open, call_close, stream_step, stream_run,
}
use phone_app.Realtime.Counting.{count-increment, open_streams, Move, stream_run-keeps}

-- Nothing is open, and the counter is full.
abbrev pub IsLocked : ℕ → ℕ → Type 0
IsLocked o c = (o ≡ 0) × (50 ≤ c)

Move-IsLocked : (o c o' c' : ℕ) → Move o c o' c' → IsLocked o c → IsLocked o' c'
Move-IsLocked o c o' c' (Move.stayed p q) h = omega arith
Move-IsLocked o c o' c' (Move.opened r p q) h = omega arith
Move-IsLocked o c o' c' (Move.abandoned p q) h = omega arith
Move-IsLocked o c o' c' (Move.closed p q) h = omega arith

-- Streams that are opened and closed before their first `next`.
abbrev pub abandoned_calls : Rows → ℕ → ℕ → List Text → List StreamCall
abandoned_calls rows user device [] = []
abandoned_calls rows user device (client ∷ clients) =
    call_open rows (some user) client device
    ∷ call_close client
    ∷ abandoned_calls rows user device clients

abandon_one :
    (client : Text) (device : ℕ) (s : Realtime)
    → count device s.counts < 50
    → let t = close_stream client (open_checked client device s).1 in
      (open_streams device t.streams ≡ open_streams device s.streams)
      × (count device t.counts ≡ count device s.counts + 1)
unfolding open_checked close_stream close_of find_stream set_status open_streams
abandon_one client device s room =
    ground (arith, eqb_refl client, count-increment device device s.counts)

sse_stream-allowed :
    (rows : Rows) (user : ℕ) (client : Text) (device : ℕ) (s : Realtime)
    → may_watch rows user device ≡ true
    → sse_stream rows (some user) client device s ≡ open_checked client device s
unfolding sse_stream
sse_stream-allowed rows user client device s may = rw may

abandoned-count :
    (rows : Rows) (user device : ℕ) (clients : List Text) (s : Realtime)
    → may_watch rows user device ≡ true
    → open_streams device s.streams ≡ 0
    → count device s.counts + length clients ≡ 50
    → let t = stream_run (abandoned_calls rows user device clients) s in
      IsLocked (open_streams device t.streams) (count device t.counts)
unfolding stream_run stream_step
abandoned-count rows user device [] s may o c = omega arith
abandoned-count rows user device (client ∷ clients) s may o c =
    let t = close_stream client (open_checked client device s).1 in
    let one = abandon_one client device s (omega arith) in
    let rest = abandoned_calls rows user device clients in
    subst
      (λ r.
        let u = stream_run rest (close_stream client r.1) in
        IsLocked (open_streams device u.streams) (count device u.counts))
      (sym (sse_stream-allowed rows user client device s may))
      (abandoned-count rows user device clients t may (one.0 ∙ o) (omega (arith, one.1)))

-- When nothing is counted or open and 50 streams of a device that the user may watch are opened, each
-- closed before its first `next`, then whatever calls follow, no stream of that device is open and no
-- user is given one. That a server closes a stream so early is a premise, the calls that are assumed.
pub abandoned_streams_lock_out :
    (rows : Rows) (user device : ℕ) (clients : List Text) (s : Realtime)
    → may_watch rows user device ≡ true
    → open_streams device s.streams ≡ 0
    → count device s.counts ≡ 0
    → length clients ≡ 50
    → (later : List StreamCall) (rows' : Rows) (user' : Option ℕ) (client' : Text)
    → let t = stream_run later (stream_run (abandoned_calls rows user device clients) s) in
      (open_streams device t.streams ≡ 0)
      × ((sse_stream rows' user' client' device t).0 ≢ streaming)
unfolding sse_stream open_checked
abandoned_streams_lock_out rows user device clients s may o c n later rows' user' client' =
    let full = stream_run (abandoned_calls rows user device clients) s in
    let locked = abandoned-count rows user device clients s may o (omega arith) in
    let still = stream_run-keeps IsLocked device Move-IsLocked later full locked in
    (still.0, refused user' (stream_run later full) still.1)
  where
    refused :
        (user' : Option ℕ) (t : Realtime)
        → 50 ≤ count device t.counts
        → (sse_stream rows' user' client' device t).0 ≢ streaming
    refused none t h e = cc
    refused (some u) t h e = ground arith
