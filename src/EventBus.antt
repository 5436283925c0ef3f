-- ===== src/EventBus.antt =====
-- find_device/realtime/event_bus.py: `class EventBus`, each public method as the code under its lock.
-- `V` stands for the JSON values of PLC variables.
pub mod Order
use phone_app.Base.{
  is_some, ℕ, zero, suc, ◌+◌, ◌-◌, ◌*◌, ◌≤◌, ◌<◌, ◌≡◌, ◌≢◌, ◌⊎◌, inl, inr, refl, sym, ap, ◌∙◌, Bool,
  true, false, not, ◌&&◌, ◌||◌, Option, none, some, List, [], ◌∷◌, ◌++◌, map, arith, tests, ltb,
  leb, ◌==◌, if◌then◌else◌, Bool-cases, Option-cases, Text, codes, eqb, length,
}

-- The event dicts; `heartbeat` alone has no `seq`.
pub data Event (V : Type 0) : Type 0 where
  variable_change : ℕ → Text → V → ℕ → ℕ → Event V
  connection_change : ℕ → Bool → Text → ℕ → ℕ → Event V
  alarm : ℕ → Text → Bool → Text → ℕ → ℕ → Event V
  heartbeat : ℕ → Event V

pub record Bus (V : Type 0) : Type 0 where
  pub client_queues : List (Text × List (Event V))
  pub event_count : ℕ

-- `_MAX_QUEUE_SIZE`
abbrev pub max_queue_size : ℕ
max_queue_size = 500

abbrev pub new_bus : {V : Type 0} → Bus V
new_bus = record { client_queues = []; event_count = 0 }

module _ {V : Type 0} where
  abbrev pub drop_oldest : List (Event V) → List (Event V)
  drop_oldest [] = []
  drop_oldest (e ∷ q) = q

  -- One client in `_broadcast`.
  unfoldable pub put : Event V → List (Event V) → List (Event V)
  put e q = (if leb max_queue_size (length q) then drop_oldest q else q) ++ e ∷ []

  unfoldable pub broadcast : Event V → List (Text × List (Event V)) → List (Text × List (Event V))
  broadcast e [] = []
  broadcast e ((client, q) ∷ rest) = (client, put e q) ∷ broadcast e rest

  -- The common part of the three data events: count first, then broadcast with that number.
  unfoldable pub publish_event : (ℕ → Event V) → Bus V → Bus V
  publish_event event b =
      let seq = b.event_count + 1 in
      record { client_queues = broadcast (event seq) b.client_queues; event_count = seq }

  -- `EventBus.publish`; `now` is `time.time()`.
  unfoldable pub publish : ℕ → Text → V → Option ℕ → ℕ → Bus V → Bus V
  unfolding publish_event
  publish device_id var v none now = publish_event (variable_change device_id var v now)
  publish device_id var v (some timestamp) now =
      publish_event (variable_change device_id var v timestamp)

  -- `EventBus.publish_connection`
  unfoldable pub publish_connection : ℕ → Bool → Text → ℕ → Bus V → Bus V
  unfolding publish_event
  publish_connection device_id connected ads_state now =
      publish_event (connection_change device_id connected ads_state now)

  -- `EventBus.publish_alarm`
  unfoldable pub publish_alarm : ℕ → Text → Bool → Text → ℕ → Bus V → Bus V
  unfolding publish_event
  publish_alarm device_id var active label now =
      publish_event (alarm device_id var active label now)

  -- `EventBus.heartbeat`
  unfoldable pub send_heartbeat : ℕ → Bus V → Bus V
  send_heartbeat now b = record b { client_queues = broadcast (heartbeat now) b.client_queues }

  unfoldable pub find_queue : Text → List (Text × List (Event V)) → Option (List (Event V))
  find_queue client [] = none
  find_queue client ((k, q) ∷ rest) = if eqb client k then some q else find_queue client rest

  -- `EventBus.register_client`: a client that is registered keeps its queue.
  unfoldable pub register_client : Text → Bus V → Bus V
  unfolding find_queue
  register_client client b =
      if is_some (find_queue client b.client_queues)
      then b
      else record b { client_queues = b.client_queues ++ (client, []) ∷ [] }

  unfoldable pub remove_queue : Text → List (Text × List (Event V)) → List (Text × List (Event V))
  remove_queue client [] = []
  remove_queue client ((k, q) ∷ rest) =
      if eqb client k then rest else (k, q) ∷ remove_queue client rest

  -- `EventBus.unregister_client`
  unfoldable pub unregister_client : Text → Bus V → Bus V
  unfolding remove_queue
  unregister_client client b = record b { client_queues = remove_queue client b.client_queues }

  -- `EventBus.get_queue`
  unfoldable pub get_queue : Text → Bus V → Option (List (Event V))
  unfolding find_queue
  get_queue client b = find_queue client b.client_queues

  unfoldable pub pop_queue : Text → List (Text × List (Event V)) → List (Text × List (Event V))
  pop_queue client [] = []
  pop_queue client ((k, q) ∷ rest) =
      if eqb client k then (k, drop_oldest q) ∷ rest else (k, q) ∷ pop_queue client rest

  -- The SSE generator takes the oldest event from its queue.
  unfoldable pub take_event : Text → Bus V → Bus V
  unfolding pop_queue
  take_event client b = record b { client_queues = pop_queue client b.client_queues }

-- The calls of a bus, in the order in which they get its lock.
pub data BusCall (V : Type 0) : Type 0 where
  call_publish : ℕ → Text → V → Option ℕ → ℕ → BusCall V
  call_connection : ℕ → Bool → Text → ℕ → BusCall V
  call_alarm : ℕ → Text → Bool → Text → ℕ → BusCall V
  call_heartbeat : ℕ → BusCall V
  call_register call_unregister call_take : Text → BusCall V

module _ {V : Type 0} where
  unfoldable pub bus_step : BusCall V → Bus V → Bus V
  bus_step (call_publish i v x t now) b = publish i v x t now b
  bus_step (call_connection i up s now) b = publish_connection i up s now b
  bus_step (call_alarm i v on l now) b = publish_alarm i v on l now b
  bus_step (call_heartbeat now) b = send_heartbeat now b
  bus_step (call_register c) b = register_client c b
  bus_step (call_unregister c) b = unregister_client c b
  bus_step (call_take c) b = take_event c b

  unfoldable pub bus_run : List (BusCall V) → Bus V → Bus V
  bus_run [] b = b
  bus_run (k ∷ ks) b = bus_run ks (bus_step k b)
