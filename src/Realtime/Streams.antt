-- ===== src/Realtime/Streams.antt =====
-- find_device/realtime/views.py: `sse_stream`, `snapshot` and the steps of `_sse_generator`.
use phone_app.Base.{
  ℕ, Bool, false, ◌&&◌, Option, none, some, List, [], ◌∷◌, leb, ◌==◌, if◌then◌else◌, Text, eqb,
}
use phone_app.Base.{get_at, any}
use phone_app.Ads.State.{Value}
use phone_app.EventBus.{
  Event, variable_change, register_client, unregister_client, take_event, get_queue, publish,
}
use phone_app.Realtime.{
  Entry, get_all, update, count, increment, decrement, max_sse_connections_per_device, Status,
  created, running, finished, Stream, Realtime, Rows,
}

-- `ApartmentMembership.objects.get(apartment=dev.apartment, user=user)`
unfoldable pub is_member : ℕ → Option ℕ → List (ℕ × ℕ) → Bool
is_member user none members = false
is_member user (some apartment) members = any (λ m. m.0 == user && m.1 == apartment) members

unfoldable pub may_watch : Rows → ℕ → ℕ → Bool
unfolding is_member
may_watch rows user device = elim (get_at device rows.devices) [
  | none ↦ false
  | some apartment ↦ is_member user apartment rows.memberships
]

-- The status of the response; 200 is the stream.
pub data Answer : Type 0 where
  unauthorized not_found too_many_connections : Answer
  streaming : Answer

-- `sse_stream` from its checks on: `user` is what the token says, and `client` a fresh `uuid4`.
unfoldable pub open_checked : Text → ℕ → Realtime → Answer × Realtime
open_checked client device s =
    if leb max_sse_connections_per_device (count device s.counts)
    then (too_many_connections, s)
    else (
      streaming,
      record s {
        bus = register_client client s.bus;
        counts = increment device s.counts;
        streams = (record { device_id = device; client_id = client; status = created }) ∷ s.streams;
      },
    )

unfoldable pub sse_stream : Rows → Option ℕ → Text → ℕ → Realtime → Answer × Realtime
unfolding open_checked may_watch
sse_stream rows none client device s = (unauthorized, s)
sse_stream rows (some user) client device s =
    if may_watch rows user device then open_checked client device s else (not_found, s)

-- `snapshot`; `none` is a 404.
unfoldable pub snapshot : Rows → ℕ → ℕ → Realtime → Option (List (Text × Entry))
snapshot rows user device s =
    if may_watch rows user device then some (get_all device s.cache) else none

-- A line of the stream.
pub data Line : Type 0 where
  acknowledged : ℕ → Text → Line
  event_line : Event Value → Line
  heartbeat_line : ℕ → Line

unfoldable pub find_stream : Text → List Stream → Option Stream
find_stream client [] = none
find_stream client (x ∷ xs) = if eqb x.client_id client then some x else find_stream client xs

unfoldable pub set_status : Text → Status → List Stream → List Stream
set_status client status [] = []
set_status client status (x ∷ xs) =
    if eqb x.client_id client
    then record x { status = status } ∷ xs
    else x ∷ set_status client status xs

-- `event.get("timestamp") or event.get("ts")`: no event has a `ts`, and a timestamp 0 counts as none.
abbrev pub timestamp_of : ℕ → Option ℕ
timestamp_of ts = if ts == 0 then none else some ts

-- The mirroring of an event into the cache, under the device of the stream.
unfoldable pub mirror : ℕ → ℕ → Event Value → Realtime → Realtime
mirror now device (variable_change source var v ts seq) s = record s {
  cache = update device var v (timestamp_of ts) now s.cache;
}
mirror now device e s = s

unfoldable pub first_of : Option (List (Event Value)) → Option (Event Value)
first_of none = none
first_of (some []) = none
first_of (some (e ∷ q)) = some e

-- A `next` of a running generator: an event of its queue, or a heartbeat after the time-out.
unfoldable pub yield_event : ℕ → Stream → Option (Event Value) → Realtime → Line × Realtime
unfolding mirror
yield_event now x none s = (heartbeat_line now, s)
yield_event now x (some e) s =
    (event_line e, mirror now x.device_id e (record s { bus = take_event x.client_id s.bus }))

unfoldable pub next_of : ℕ → Stream → Status → Realtime → Option Line × Realtime
unfolding yield_event
next_of now x created s = (
  some (acknowledged x.device_id x.client_id),
  record s { streams = set_status x.client_id running s.streams },
)
next_of now x running s =
    let (line, t) = yield_event now x (first_of (get_queue x.client_id s.bus)) s in (some line, t)
next_of now x finished s = (none, s)

-- A `next` of the generator of a client.
unfoldable pub next_line : ℕ → Text → Realtime → Option Line × Realtime
unfolding next_of find_stream
next_line now client s = elim (find_stream client s.streams) [
  | none ↦ (none, s)
  | some x ↦ next_of now x x.status s
]

-- `close()` of a generator: one that runs executes its `finally`; one that was never started ends
-- without executing anything.
unfoldable pub close_of : Stream → Status → Realtime → Realtime
close_of x created s = record s { streams = set_status x.client_id finished s.streams }
close_of x running s = record s {
  bus = unregister_client x.client_id s.bus;
  counts = decrement x.device_id s.counts;
  streams = set_status x.client_id finished s.streams;
}
close_of x finished s = s

unfoldable pub close_stream : Text → Realtime → Realtime
unfolding close_of find_stream
close_stream client s = elim (find_stream client s.streams) [
  | none ↦ s
  | some x ↦ close_of x x.status s
]

-- What happens to the three singletons, in the order in which it does.
pub data StreamCall : Type 0 where
  call_open : Rows → Option ℕ → Text → ℕ → StreamCall
  call_next : ℕ → Text → StreamCall
  call_close : Text → StreamCall
  call_publish : ℕ → Text → Value → ℕ → StreamCall

unfoldable pub stream_step : StreamCall → Realtime → Realtime
stream_step (call_open rows user client device) s = (sse_stream rows user client device s).1
stream_step (call_next now client) s = (next_line now client s).1
stream_step (call_close client) s = close_stream client s
stream_step (call_publish device var v ts) s = record s {
  bus = publish device var v (some ts) ts s.bus;
}

unfoldable pub stream_run : List StreamCall → Realtime → Realtime
unfolding stream_step
stream_run [] s = s
stream_run (call ∷ calls) s = stream_run calls (stream_step call s)
