-- ===== src/Realtime/Counting.antt =====
-- The counters of `_SSEConnectionRegistry` against the streams that are open.
use phone_app.Base.{
  ℕ, ◌+◌, ◌-◌, ◌≤◌, ◌<◌, ◌≡◌, ◌⊎◌, inl, inr, refl, ap, true, false, Option, none, some, List, [],
  ◌∷◌, arith, leb, ◌==◌, if◌then◌else◌, Bool-cases, Option-cases, Text,
}
use phone_app.Base.{get_at, get_at-put_at, get_at-pop_at, eqb_sound}
use phone_app.Ads.State.{Value}
use phone_app.EventBus.{Event, get_queue}
use phone_app.Realtime.{
  or_none, Counts, count, increment, decrement, Status, created, running, finished, Stream,
  Realtime, Rows,
}
use phone_app.Realtime.Streams.{
  may_watch, open_checked, sse_stream, find_stream, set_status, mirror, yield_event, next_of,
  next_line, close_of, close_stream, StreamCall, call_open, call_next, call_close, call_publish,
  stream_step, stream_run, first_of,
}

pub count-increment :
    (device d : ℕ) (counts : Counts)
    → count d (increment device counts)
      ≡ (if device == d then count d counts + 1 else count d counts)
unfolding count increment
count-increment device d counts =
    ground (arith, get_at-put_at device d (or_none (get_at device counts) + 1) counts)

count-decrement :
    (device d : ℕ) (counts : Counts)
    → count d (decrement device counts)
      ≡ (if device == d then count d counts - 1 else count d counts)
unfolding count decrement
count-decrement device d counts = ground (
  arith,
  get_at-put_at device d (or_none (get_at device counts) - 1) counts,
  get_at-pop_at device d counts,
)

abbrev pub is_open : Status → ℕ
is_open created = 1
is_open running = 1
is_open finished = 0

-- The streams of a device that were given out and have not ended.
unfoldable pub open_streams : ℕ → List Stream → ℕ
open_streams d [] = 0
open_streams d (x ∷ xs) = (if x.device_id == d then is_open x.status else 0) + open_streams d xs

find_stream-client_id :
    (client : Text) (x : Stream) (xs : List Stream)
    → find_stream client xs ≡ some x
    → x.client_id ≡ client
unfolding find_stream
find_stream-client_id client x [] h = cc
find_stream-client_id client x (y ∷ xs) h =
    ground (arith, eqb_sound y.client_id client, find_stream-client_id client x xs)

-- What a stream contributes to the count of a device.
abbrev pub share : ℕ → ℕ → Status → ℕ
share device d status = if device == d then is_open status else 0

pub open_streams-set_status :
    (client : Text) (x : Stream) (status : Status) (d : ℕ) (xs : List Stream)
    → find_stream client xs ≡ some x
    → open_streams d (set_status client status xs) + share x.device_id d x.status
      ≡ open_streams d xs + share x.device_id d status
unfolding open_streams set_status find_stream
open_streams-set_status client x status d [] h = cc
open_streams-set_status client x status d (y ∷ xs) h =
    ground (arith, open_streams-set_status client x status d xs)

-- How one call changes the number of open streams of a device, and its counter.
pub data Move (o c o' c' : ℕ) : Type 0 where
  stayed : o' ≡ o → c' ≡ c → Move o c o' c'
  opened : c < 50 → o' ≡ o + 1 → c' ≡ c + 1 → Move o c o' c'
  abandoned : o ≡ o' + 1 → c' ≡ c → Move o c o' c'
  closed : o ≡ o' + 1 → c' ≡ c - 1 → Move o c o' c'

abbrev pub Moves : ℕ → Realtime → Realtime → Type 0
Moves d s t =
    Move (open_streams d s.streams) (count d s.counts) (open_streams d t.streams) (count d t.counts)

open_checked-Moves :
    (client : Text) (device d : ℕ) (s : Realtime) → Moves d s (open_checked client device s).1
unfolding open_checked open_streams
open_checked-Moves client device d s = elim (Bool-cases (leb 50 (count device s.counts))) [
  | inl full ↦ rw full (Move.stayed refl refl)
  | inr room ↦ rw room (go (Bool-cases (device == d)) (count-increment device d s.counts) room)
]
  where
    go :
        ((device == d) ≡ true) ⊎ ((device == d) ≡ false)
        → count d (increment device s.counts)
          ≡ (if device == d then count d s.counts + 1 else count d s.counts)
        → leb 50 (count device s.counts) ≡ false
        → Move
            (open_streams d s.streams)
            (count d s.counts)
            (share device d created + open_streams d s.streams)
            (count d (increment device s.counts))
    go (inl same) e room = Move.opened (ground arith) (ground arith) (ground arith)
    go (inr other) e room = Move.stayed (ground arith) (ground arith)

sse_stream-Moves :
    (rows : Rows) (user : Option ℕ) (client : Text) (device d : ℕ) (s : Realtime)
    → Moves d s (sse_stream rows user client device s).1
unfolding sse_stream
sse_stream-Moves rows none client device d s = Move.stayed refl refl
sse_stream-Moves rows (some user) client device d s =
    elim (Bool-cases (may_watch rows user device)) [
      | inl e ↦ rw e (open_checked-Moves client device d s)
      | inr e ↦ rw e (Move.stayed refl refl)
    ]

yield_event-frame :
    (now : ℕ) (x : Stream) (e : Option (Event Value)) (s : Realtime)
    → let t = (yield_event now x e s).1 in (t.streams ≡ s.streams) × (t.counts ≡ s.counts)
unfolding yield_event mirror
yield_event-frame now x none s = (refl, refl)
yield_event-frame now x (some (Event.variable_change i v a ts n)) s = (refl, refl)
yield_event-frame now x (some (Event.connection_change i up a ts n)) s = (refl, refl)
yield_event-frame now x (some (Event.alarm i v on l ts n)) s = (refl, refl)
yield_event-frame now x (some (Event.heartbeat ts)) s = (refl, refl)

next_of-Moves :
    (now : ℕ) (client : Text) (x : Stream) (d : ℕ) (s : Realtime) (status : Status)
    → find_stream client s.streams ≡ some x
    → x.status ≡ status
    → Moves d s (next_of now x status s).1
unfolding next_of
next_of-Moves now client x d s created e p =
    rw (find_stream-client_id client x s.streams e)
      (Move.stayed (ground (arith, open_streams-set_status client x running d s.streams)) refl)
next_of-Moves now client x d s running e p =
    let frame = yield_event-frame now x (first_of (get_queue x.client_id s.bus)) s in
    Move.stayed (ap (open_streams d) frame.0) (ap (count d) frame.1)
next_of-Moves now client x d s finished e p = Move.stayed refl refl

-- The end of a stream, of any device: it is one of the open streams of its own.
ended-Moves :
    (device d o' o c' c : ℕ) (before : Status)
    → o' + share device d before ≡ o + share device d finished
    → is_open before ≡ 1
    → c' ≡ (if device == d then c - 1 else c)
    → Move o c o' c'
ended-Moves device d o' o c' c before e p q = elim (Bool-cases (device == d)) [
  | inl same ↦ Move.closed (ground arith) (ground arith)
  | inr other ↦ Move.stayed (ground arith) (ground arith)
]

close_of-Moves :
    (client : Text) (x : Stream) (d : ℕ) (s : Realtime) (status : Status)
    → find_stream client s.streams ≡ some x
    → x.status ≡ status
    → Moves d s (close_of x status s)
unfolding close_of
close_of-Moves client x d s created e p =
    rw (find_stream-client_id client x s.streams e) (elim (Bool-cases (x.device_id == d)) [
      | inl same ↦
          Move.abandoned (ground (arith, open_streams-set_status client x finished d s.streams))
            refl
      | inr other ↦
          Move.stayed (ground (arith, open_streams-set_status client x finished d s.streams)) refl
    ])
close_of-Moves client x d s running e p = rw (find_stream-client_id client x s.streams e) (
    ended-Moves x.device_id d (open_streams d (set_status client finished s.streams))
      (open_streams d s.streams) (count d (decrement x.device_id s.counts)) (count d s.counts)
      x.status (open_streams-set_status client x finished d s.streams e) (ap is_open p)
      (count-decrement x.device_id d s.counts))
close_of-Moves client x d s finished e p = Move.stayed refl refl

next_line-Moves :
    (now : ℕ) (client : Text) (d : ℕ) (s : Realtime) → Moves d s (next_line now client s).1
unfolding next_line open_streams count
next_line-Moves now client d s = elim (Option-cases (find_stream client s.streams)) [
  | inl e ↦ rw (next_line, e) (Move.stayed refl refl)
  | inr e ↦ rw (next_line, e.1) (next_of-Moves now client e.0 d s e.0.status e.1 refl)
]

close_stream-Moves : (client : Text) (d : ℕ) (s : Realtime) → Moves d s (close_stream client s)
unfolding close_stream open_streams count
close_stream-Moves client d s = elim (Option-cases (find_stream client s.streams)) [
  | inl e ↦ rw (close_stream, e) (Move.stayed refl refl)
  | inr e ↦ rw (close_stream, e.1) (close_of-Moves client e.0 d s e.0.status e.1 refl)
]

stream_step-Moves : (call : StreamCall) (d : ℕ) (s : Realtime) → Moves d s (stream_step call s)
unfolding stream_step
stream_step-Moves (call_open rows user client device) d s =
    sse_stream-Moves rows user client device d s
stream_step-Moves (call_next now client) d s = next_line-Moves now client d s
stream_step-Moves (call_close client) d s = close_stream-Moves client d s
stream_step-Moves (call_publish i v x t) d s = Move.stayed refl refl

-- An invariant of the two numbers of a device holds after any calls, if each move keeps it.
pub stream_run-keeps :
    (P : ℕ → ℕ → Type 0) (d : ℕ)
    → ((o c o' c' : ℕ) → Move o c o' c' → P o c → P o' c')
    → (calls : List StreamCall) (s : Realtime) → P (open_streams d s.streams) (count d s.counts)
    → let t = stream_run calls s in P (open_streams d t.streams) (count d t.counts)
unfolding stream_run
stream_run-keeps P d keep [] s h = h
stream_run-keeps P d keep (call ∷ calls) s h =
    let t = stream_step call s in
    stream_run-keeps P d keep calls t (
      keep (open_streams d s.streams) (count d s.counts) (open_streams d t.streams)
        (count d t.counts) (stream_step-Moves call d s) h)

-- At most as many open streams as the counter says, and at most 50 by the counter.
abbrev pub IsCounted : ℕ → ℕ → Type 0
IsCounted o c = (o ≤ c) × (c ≤ 50)

Move-IsCounted : (o c o' c' : ℕ) → Move o c o' c' → IsCounted o c → IsCounted o' c'
Move-IsCounted o c o' c' (Move.stayed p q) h = omega arith
Move-IsCounted o c o' c' (Move.opened r p q) h = omega arith
Move-IsCounted o c o' c' (Move.abandoned p q) h = omega arith
Move-IsCounted o c o' c' (Move.closed p q) h = omega arith

-- In any order of opens, `next` calls, closes and changes, each made as one step, started where it is so:
-- at most as many streams of a device are open as its counter says, and the counter says at most 50.
pub open_streams-le-count :
    (calls : List StreamCall) (device : ℕ) (s : Realtime)
    → IsCounted (open_streams device s.streams) (count device s.counts)
    → let t = stream_run calls s in
      IsCounted (open_streams device t.streams) (count device t.counts)
open_streams-le-count calls device s h = stream_run-keeps IsCounted device Move-IsCounted calls s h
