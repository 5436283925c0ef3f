-- ===== src/Tests/Realtime.antt =====
-- Streams over a bus with one client.
use phone_app.Base.{
  ℕ, zero, suc, ◌≡◌, ◌≢◌, refl, true, false, some, List, [], ◌∷◌, arith, Text, codes,
}
use phone_app.Ads.State.{Value, bool}
use phone_app.EventBus.{Event, variable_change, publish, get_queue}
use phone_app.Realtime.{get, count, running, Realtime, Rows}
use phone_app.Realtime.Streams.{
  may_watch, streaming, sse_stream, StreamCall, call_open, call_next, call_close, call_publish,
  stream_run, next_line, find_stream, event_line,
}
use phone_app.Realtime.Delivery.{
  next_lines, event_lines, published_change_is_yielded, foreign_change_leaks,
}
use phone_app.Realtime.Counting.{open_streams, IsCounted, open_streams-le-count}
use phone_app.Realtime.Lockout.{abandoned_calls, abandoned_streams_lock_out}

abbrev tab : Text
tab = codes "tab"

abbrev waiting : Event Value
waiting = variable_change 4 (codes "lamp") (bool true) 10 1

-- One running stream of device 4, with one event that waits.
abbrev busy : Realtime
busy = record {
  bus = record { client_queues = (tab, waiting ∷ []) ∷ []; event_count = 1 };
  cache = [];
  counts = (4, 1) ∷ [];
  streams = (record { device_id = 4; client_id = tab; status = running }) ∷ [];
}

abbrev idle : Realtime
idle = record busy { bus = record { client_queues = (tab, []) ∷ []; event_count = 1 } }

abbrev empty : Realtime
empty = record {
  bus = record { client_queues = []; event_count = 0 };
  cache = [];
  counts = [];
  streams = [];
}

abbrev rows : Rows
rows = record { devices = (4, some 7) ∷ []; memberships = (1, 7) ∷ [] }

published_change_is_yielded_example :
    next_lines 2 12 tab
      (record busy { bus = publish 4 (codes "lamp") (bool false) (some 11) 11 busy.bus })
    ≡ event_lines (waiting ∷ variable_change 4 (codes "lamp") (bool false) 11 2 ∷ [])
unfolding find_stream get_queue
published_change_is_yielded_example =
    published_change_is_yielded 12 tab 4 4 (codes "lamp") (bool false) 11 (waiting ∷ []) busy
      (refl, refl) (omega arith)

foreign_change_leaks_example :
    let (line, t) =
      next_line 12 tab
        (record idle { bus = publish 5 (codes "door") (bool true) (some 11) 11 idle.bus }) in
    (line ≡ some (event_line (variable_change 5 (codes "door") (bool true) 11 2)))
    × (get 4 (codes "door") t.cache ≡ some (bool true, 11))
unfolding find_stream get_queue
foreign_change_leaks_example =
    foreign_change_leaks 12 tab 4 5 (codes "door") (bool true) 11 idle (refl, refl) (omega arith)

abbrev calls : List StreamCall
calls =
    call_open rows (some 1) (codes "phone") 4
    ∷ call_next 12 (codes "phone")
    ∷ call_publish 4 (codes "lamp") (bool false) 13
    ∷ call_close tab
    ∷ []

open_streams-le-count_example :
    let t = stream_run calls busy in IsCounted (open_streams 4 t.streams) (count 4 t.counts)
unfolding open_streams count
open_streams-le-count_example = open_streams-le-count calls 4 busy (omega arith)

abbrev repeated : ℕ → List Text
repeated zero = []
repeated (suc n) = tab ∷ repeated n

abandoned_streams_lock_out_example :
    let t = stream_run calls (stream_run (abandoned_calls rows 1 4 (repeated 50)) empty) in
    (open_streams 4 t.streams ≡ 0) × ((sse_stream rows (some 1) (codes "phone") 4 t).0 ≢ streaming)
unfolding may_watch open_streams count
abandoned_streams_lock_out_example =
    abandoned_streams_lock_out rows 1 4 (repeated 50) empty refl refl refl refl calls rows (some 1)
      (codes "phone")
