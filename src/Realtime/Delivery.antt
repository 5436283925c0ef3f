-- ===== src/Realtime/Delivery.antt =====
-- What the running streams yield: the events of their queues, of whichever device.
use phone_app.Base.{
  ℕ, zero, suc, ◌+◌, ◌<◌, ◌≡◌, ◌≢◌, refl, sym, ap, ◌∙◌, Option, some, List, [], ◌∷◌, ◌++◌, arith,
  leb, if◌then◌else◌, Text, length,
}
use phone_app.Base.{get_at, get_at-put_at, insert, lookup-insert, eqb_refl, length-append}
use phone_app.Ads.State.{Value}
use phone_app.EventBus.{
  heartbeat, alarm, connection_change, Bus, Event, variable_change, publish, get_queue, find_queue,
  take_event, pop_queue, drop_oldest,
}
use phone_app.EventBus.Order.{publish_delivers}
use phone_app.Realtime.{
  or_no_values, Cache, Entry, get_all, update, get, or_now, running, Stream, Realtime,
}
use phone_app.Realtime.Streams.{
  timestamp_of, mirror, first_of, yield_event, next_of, next_line, find_stream, Line, event_line,
}

get_queue-take_event :
    {A : Type 0} (client : Text) (e : Event A) (q : List (Event A)) (b : Bus A)
    → get_queue client b ≡ some (e ∷ q)
    → get_queue client (take_event client b) ≡ some q
unfolding get_queue take_event
get_queue-take_event {A} client e q b h = go b.client_queues h
  where
    go :
        (qs : List (Text × List (Event A)))
        → find_queue client qs ≡ some (e ∷ q)
        → find_queue client (pop_queue client qs) ≡ some q
    go [] h = ground arith
    go ((k, r) ∷ rest) h = ground (arith, go rest)

-- A stream that runs, with the queue of its client.
abbrev pub IsStreaming : Text → ℕ → List (Event Value) → Realtime → Type 0
IsStreaming client device q s =
    (find_stream client s.streams
      ≡ some (record { device_id = device; client_id = client; status = running }))
    × (get_queue client s.bus ≡ some q)

pub mirror-frame :
    (now device : ℕ) (e : Event Value) (s : Realtime)
    → ((mirror now device e s).streams ≡ s.streams) × ((mirror now device e s).bus ≡ s.bus)
unfolding mirror
mirror-frame now device (variable_change i v x ts n) s = (refl, refl)
mirror-frame now device (connection_change i up x ts n) s = (refl, refl)
mirror-frame now device (alarm i v on l ts n) s = (refl, refl)
mirror-frame now device (heartbeat ts) s = (refl, refl)

next_line-streaming :
    (now : ℕ) (client : Text) (device : ℕ) (q : List (Event Value)) (s : Realtime)
    → IsStreaming client device q s
    → let x : Stream = record { device_id = device; client_id = client; status = running } in
      let (line, t) = yield_event now x (first_of (some q)) s in
      next_line now client s ≡ (some line, t)
unfolding next_line next_of
next_line-streaming now client device q s h = rw (next_line, h.0) (rw (next_of, h.1) refl)

next_line-event :
    (now : ℕ) (client : Text) (device : ℕ) (e : Event Value) (q : List (Event Value)) (s : Realtime)
    → IsStreaming client device (e ∷ q) s
    → let (line, t) = next_line now client s in
      (line ≡ some (event_line e)) × IsStreaming client device q t
unfolding yield_event first_of
next_line-event now client device e q s h =
    let b = take_event client s.bus in
    let frame = mirror-frame now device e (record s { bus = b }) in
    let kept = get_queue-take_event client e q s.bus h.1 in
    rw (next_line-streaming now client device (e ∷ q) s h)
      (refl, (ap (find_stream client) frame.0 ∙ h.0, ap (get_queue client) frame.1 ∙ kept))

-- The lines of so many `next` calls.
abbrev pub next_lines : ℕ → ℕ → Text → Realtime → List (Option Line)
next_lines zero now client s = []
next_lines (suc n) now client s =
    (next_line now client s).0 ∷ next_lines n now client (next_line now client s).1

abbrev pub event_lines : List (Event Value) → List (Option Line)
event_lines [] = []
event_lines (e ∷ q) = some (event_line e) ∷ event_lines q

queue_drains :
    (now : ℕ) (client : Text) (device : ℕ) (q : List (Event Value)) (s : Realtime)
    → IsStreaming client device q s
    → next_lines (length q) now client s ≡ event_lines q
queue_drains now client device [] s h = refl
queue_drains now client device (e ∷ q) s h =
    let (line, t) = next_line now client s in
    ground (arith, next_line-event now client device e q s h, queue_drains now client device q t)

-- A variable change that is published while a stream runs and fewer than 500 events wait for its client
-- is yielded: the next lines of the stream are the waiting events in their order and then the change,
-- after one `next` for each of them.
pub published_change_is_yielded :
    (now : ℕ) (client : Text) (device i : ℕ) (var : Text) (v : Value) (ts : ℕ)
    → (q : List (Event Value)) (s : Realtime) → IsStreaming client device q s
    → length q < 500
    → let change = variable_change i var v ts (s.bus.event_count + 1) in
      next_lines (length q + 1) now client (record s { bus = publish i var v (some ts) ts s.bus })
      ≡ event_lines (q ++ change ∷ [])
published_change_is_yielded now client device i var v ts q s h room =
    let change = variable_change i var v ts (s.bus.event_count + 1) in
    let t = record s { bus = publish i var v (some ts) ts s.bus } in
    let delivered = (publish_delivers i var v ts ts s.bus client {q = q} h.1).1 in
    let all_of =
      queue_drains now client device (q ++ change ∷ []) t
        (h.0, delivered ∙ ap some (ap (λ r. r ++ change ∷ []) (kept q room))) in
    ap (λ n. next_lines n now client t) (sym (length-append q (change ∷ []))) ∙ all_of
  where
    kept :
        (q : List (Event Value))
        → length q < 500
        → (if leb 500 (length q) then drop_oldest q else q) ≡ q
    kept q room = ground arith

get-update :
    (device : ℕ) (var : Text) (v : Value) (ts : Option ℕ) (now : ℕ) (cache : Cache)
    → get device var (update device var v ts now cache) ≡ some (v, or_now ts now)
unfolding get update get_all
get-update device var v ts now cache =
    let entry : Entry = (v, or_now ts now) in
    let values = or_no_values (get_at device cache) in
    ground (
      arith,
      get_at-put_at device device (insert var entry values) cache,
      lookup-insert var var entry values,
      eqb_refl var,
    )

-- The streams do not separate the devices: a change of any other device, once it is published, is the
-- next line of a running stream with nothing waiting, and is written to the cache as a value of the
-- device of the stream.
pub foreign_change_leaks :
    (now : ℕ) (client : Text) (device other : ℕ) (var : Text) (v : Value) (ts : ℕ) (s : Realtime)
    → IsStreaming client device [] s
    → other ≢ device
    → let (line, t) =
        next_line now client (record s { bus = publish other var v (some ts) ts s.bus }) in
      (line ≡ some (event_line (variable_change other var v ts (s.bus.event_count + 1))))
      × (get device var t.cache ≡ some (v, or_now (timestamp_of ts) now))
unfolding yield_event first_of mirror get update get_all
foreign_change_leaks now client device other var v ts s h foreign =
    let change = variable_change other var v ts (s.bus.event_count + 1) in
    let t = record s { bus = publish other var v (some ts) ts s.bus } in
    let delivered = (publish_delivers other var v ts ts s.bus client {q = []} h.1).1 in
    rw (next_line-streaming now client device (change ∷ []) t (h.0, delivered))
      (refl, get-update device var v (timestamp_of ts) now s.cache)
