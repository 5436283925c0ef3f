-- ===== src/EventBus/Order.antt =====
-- What every client of the event bus can rely on: bounded queues, in the order of publication.
use phone_app.Base.{
  is_some, leb→gt, subst, length-append, ℕ, ◌+◌, ◌-◌, ◌≤◌, ◌<◌, ◌≡◌, inl, inr, refl, none, some,
  List, [], ◌∷◌, ◌++◌, arith, leb, if◌then◌else◌, Bool-cases, Text, eqb, length,
}
use phone_app.EventBus.{
  Event, variable_change, connection_change, alarm, heartbeat, Bus, new_bus, drop_oldest, put,
  broadcast, publish, publish_connection, publish_alarm, send_heartbeat, find_queue,
  register_client, remove_queue, unregister_client, get_queue, pop_queue, take_event, BusCall,
  call_publish, call_connection, call_alarm, call_heartbeat, call_register, call_unregister,
  call_take, bus_step, bus_run,
}

module _ {V : Type 0} where
  -- The event's `seq` lies in `lo < seq ≤ hi`; a heartbeat has none.
  abbrev Numbered : ℕ → ℕ → Event V → Type 0
  Numbered lo hi (variable_change _ _ _ _ n) = (lo < n) × (n ≤ hi)
  Numbered lo hi (connection_change _ _ _ _ n) = (lo < n) × (n ≤ hi)
  Numbered lo hi (alarm _ _ _ _ _ n) = (lo < n) × (n ≤ hi)
  Numbered lo hi (heartbeat _) = Unit

  -- The least number that may follow the event.
  abbrev floor_after : ℕ → Event V → ℕ
  floor_after lo (variable_change _ _ _ _ n) = n
  floor_after lo (connection_change _ _ _ _ n) = n
  floor_after lo (alarm _ _ _ _ _ n) = n
  floor_after lo (heartbeat _) = lo

  -- The numbers in a queue rise strictly, and lie above `lo` and not above `hi`.
  abbrev pub Rising : ℕ → ℕ → List (Event V) → Type 0
  Rising lo hi [] = lo ≤ hi
  Rising lo hi (e ∷ q) = Numbered lo hi e × Rising (floor_after lo e) hi q

  Rising-le : (lo hi : ℕ) (q : List (Event V)) → Rising lo hi q → lo ≤ hi
  Rising-le lo hi [] h = h
  Rising-le lo hi (variable_change _ _ _ _ n ∷ q) h = omega arith
  Rising-le lo hi (connection_change _ _ _ _ n ∷ q) h = omega arith
  Rising-le lo hi (alarm _ _ _ _ _ n ∷ q) h = omega arith
  Rising-le lo hi (heartbeat _ ∷ q) h = Rising-le lo hi q h.1

  Rising-weaken : (lo lo' hi : ℕ) (q : List (Event V)) → lo' ≤ lo → Rising lo hi q → Rising lo' hi q
  Rising-weaken lo lo' hi [] le h = omega arith
  Rising-weaken lo lo' hi (variable_change _ _ _ _ n ∷ q) le h = ((omega arith, omega arith), h.1)
  Rising-weaken lo lo' hi (connection_change _ _ _ _ n ∷ q) le h = ((omega arith, omega arith), h.1)
  Rising-weaken lo lo' hi (alarm _ _ _ _ _ n ∷ q) le h = ((omega arith, omega arith), h.1)
  Rising-weaken lo lo' hi (heartbeat _ ∷ q) le h = (tt, Rising-weaken lo lo' hi q le h.1)

  -- A further event, numbered above all so far, may be added at the end.
  Rising-snoc :
      (lo hi hi' : ℕ) (q : List (Event V)) (e : Event V)
      → hi ≤ hi'
      → Numbered hi hi' e
      → Rising lo hi q
      → Rising lo hi' (q ++ e ∷ [])
  Rising-snoc lo hi hi' [] (variable_change _ _ _ _ n) le new h =
      ((omega arith, omega arith), omega arith)
  Rising-snoc lo hi hi' [] (connection_change _ _ _ _ n) le new h =
      ((omega arith, omega arith), omega arith)
  Rising-snoc lo hi hi' [] (alarm _ _ _ _ _ n) le new h = ((omega arith, omega arith), omega arith)
  Rising-snoc lo hi hi' [] (heartbeat _) le new h = (tt, omega arith)
  Rising-snoc lo hi hi' (variable_change _ _ _ _ n ∷ q) e le new h =
      ((omega arith, omega arith), Rising-snoc n hi hi' q e le new h.1)
  Rising-snoc lo hi hi' (connection_change _ _ _ _ n ∷ q) e le new h =
      ((omega arith, omega arith), Rising-snoc n hi hi' q e le new h.1)
  Rising-snoc lo hi hi' (alarm _ _ _ _ _ n ∷ q) e le new h =
      ((omega arith, omega arith), Rising-snoc n hi hi' q e le new h.1)
  Rising-snoc lo hi hi' (heartbeat _ ∷ q) e le new h = (tt, Rising-snoc lo hi hi' q e le new h.1)

  drop_oldest-Rising :
      (lo hi : ℕ) (q : List (Event V)) → Rising lo hi q → Rising lo hi (drop_oldest q)
  drop_oldest-Rising lo hi [] h = h
  drop_oldest-Rising lo hi (variable_change _ _ _ _ n ∷ q) h =
      Rising-weaken n lo hi q (omega arith) h.1
  drop_oldest-Rising lo hi (connection_change _ _ _ _ n ∷ q) h =
      Rising-weaken n lo hi q (omega arith) h.1
  drop_oldest-Rising lo hi (alarm _ _ _ _ _ n ∷ q) h = Rising-weaken n lo hi q (omega arith) h.1
  drop_oldest-Rising lo hi (heartbeat _ ∷ q) h = h.1

  length-drop_oldest : (q : List (Event V)) → length (drop_oldest q) ≡ length q - 1
  length-drop_oldest [] = omega arith
  length-drop_oldest (e ∷ q) = omega arith

  -- What holds of a client's queue when `n` data events have been published.
  abbrev pub IsFair : ℕ → List (Event V) → Type 0
  IsFair n q = (length q ≤ 500) × Rising 0 n q

  put-IsFair :
      (n n' : ℕ) (e : Event V) (q : List (Event V))
      → n ≤ n'
      → Numbered n n' e
      → IsFair n q
      → IsFair n' (put e q)
  unfolding put
  put-IsFair n n' e q le new h = elim (Bool-cases (leb 500 (length q))) [
    | inl full ↦
        let d = drop_oldest q in
        rw full (
          omega (arith, length-append {0} d (e ∷ []), length-drop_oldest q),
          Rising-snoc 0 n n' d e le new (drop_oldest-Rising 0 n q h.1),
        )
    | inr room ↦ rw room (
      omega (arith, length-append {0} q (e ∷ []), leb→gt 500 (length q) room),
      Rising-snoc 0 n n' q e le new h.1,
    )
  ]

  abbrev pub AllFair : ℕ → List (Text × List (Event V)) → Type 0
  AllFair n [] = Unit
  AllFair n ((_, q) ∷ rest) = IsFair n q × AllFair n rest

  broadcast-AllFair :
      (n n' : ℕ) (e : Event V) (qs : List (Text × List (Event V)))
      → n ≤ n'
      → Numbered n n' e
      → AllFair n qs
      → AllFair n' (broadcast e qs)
  unfolding broadcast
  broadcast-AllFair n n' e [] le new h = tt
  broadcast-AllFair n n' e ((_, q) ∷ rest) le new h =
      (put-IsFair n n' e q le new h.0, broadcast-AllFair n n' e rest le new h.1)

  register-AllFair :
      (n : ℕ) (client : Text) (qs : List (Text × List (Event V)))
      → AllFair n qs
      → AllFair n (qs ++ (client, []) ∷ [])
  register-AllFair n client [] h = ((omega arith, omega arith), tt)
  register-AllFair n client ((_, q) ∷ rest) h = (h.0, register-AllFair n client rest h.1)

  remove-AllFair :
      (n : ℕ) (client : Text) (qs : List (Text × List (Event V)))
      → AllFair n qs
      → AllFair n (remove_queue client qs)
  unfolding remove_queue
  remove-AllFair n client [] h = tt
  remove-AllFair n client ((k, q) ∷ rest) h = elim (Bool-cases (eqb client k)) [
    | inl found ↦ rw found h.1
    | inr other ↦ rw other (h.0, remove-AllFair n client rest h.1)
  ]

  pop-AllFair :
      (n : ℕ) (client : Text) (qs : List (Text × List (Event V)))
      → AllFair n qs
      → AllFair n (pop_queue client qs)
  unfolding pop_queue
  pop-AllFair n client [] h = tt
  pop-AllFair n client ((k, q) ∷ rest) h = elim (Bool-cases (eqb client k)) [
    | inl found ↦
        rw found ((omega (arith, length-drop_oldest q), drop_oldest-Rising 0 n q h.0.1), h.1)
    | inr other ↦ rw other (h.0, pop-AllFair n client rest h.1)
  ]

  abbrev pub IsFairBus : Bus V → Type 0
  IsFairBus b = AllFair b.event_count b.client_queues

  bus_step-IsFairBus : (k : BusCall V) (b : Bus V) → IsFairBus b → IsFairBus (bus_step k b)
  unfolding bus_step publish publish_connection publish_alarm send_heartbeat register_client
      unregister_client take_event
  bus_step-IsFairBus (call_publish i v x none now) b h =
      broadcast-AllFair _ _ _ b.client_queues (omega arith) (omega arith) h
  bus_step-IsFairBus (call_publish i v x (some t) now) b h =
      broadcast-AllFair _ _ _ b.client_queues (omega arith) (omega arith) h
  bus_step-IsFairBus (call_connection i up s now) b h =
      broadcast-AllFair _ _ _ b.client_queues (omega arith) (omega arith) h
  bus_step-IsFairBus (call_alarm i v on l now) b h =
      broadcast-AllFair _ _ _ b.client_queues (omega arith) (omega arith) h
  bus_step-IsFairBus (call_heartbeat now) b h =
      broadcast-AllFair _ _ (heartbeat now) b.client_queues (omega arith) tt h
  bus_step-IsFairBus (call_register c) b h =
      elim (Bool-cases (is_some (find_queue c b.client_queues))) [
        | inl known ↦ rw known h
        | inr new ↦ rw new (register-AllFair _ c b.client_queues h)
      ]
  bus_step-IsFairBus (call_unregister c) b h = remove-AllFair _ c b.client_queues h
  bus_step-IsFairBus (call_take c) b h = pop-AllFair _ c b.client_queues h

  bus_run-IsFairBus : (ks : List (BusCall V)) (b : Bus V) → IsFairBus b → IsFairBus (bus_run ks b)
  unfolding bus_run
  bus_run-IsFairBus [] b h = h
  bus_run-IsFairBus (k ∷ ks) b h = bus_run-IsFairBus ks _ (bus_step-IsFairBus k b h)

  find_queue-IsFair :
      (n : ℕ) (client : Text) (qs : List (Text × List (Event V))) {q : List (Event V)}
      → AllFair n qs
      → find_queue client qs ≡ some q
      → IsFair n q
  unfolding find_queue
  find_queue-IsFair n client [] h e = ground arith
  find_queue-IsFair n client ((k, r) ∷ rest) {q} h e = elim (Bool-cases (eqb client k)) [
    | inl found ↦ let same : r ≡ q = ground arith in subst (IsFair n) same h.0
    | inr other ↦ find_queue-IsFair n client rest h.1 (rw (other, find_queue) at e)
  ]

  -- After any calls on a new bus, a registered client's queue holds at most 500 events, their
  -- sequence numbers rise strictly from the oldest to the newest, and none is above the number of
  -- data events published so far.
  pub bus_run-IsFair :
      (ks : List (BusCall V)) (client : Text) {q : List (Event V)}
      → get_queue client (bus_run ks new_bus) ≡ some q
      → IsFair (bus_run ks new_bus).event_count q
  unfolding get_queue
  bus_run-IsFair ks client e =
      find_queue-IsFair _ client (bus_run ks new_bus).client_queues
        (bus_run-IsFairBus ks new_bus tt) e

  find_queue-broadcast :
      (e : Event V) (client : Text) (qs : List (Text × List (Event V))) (q : List (Event V))
      → find_queue client qs ≡ some q
      → find_queue client (broadcast e qs) ≡ some (put e q)
  unfolding find_queue broadcast
  find_queue-broadcast e client [] q h = ground arith
  find_queue-broadcast e client ((k, r) ∷ rest) q h =
      ground (arith, find_queue-broadcast e client rest q)

  -- A variable change that is published reaches every registered client as the newest event of its
  -- queue, numbered one above all before it; a queue that holds 500 events or more loses its oldest
  -- one for that, and any other queue loses nothing.
  pub publish_delivers :
      (i : ℕ) (var : Text) (v : V) (t now : ℕ) (b : Bus V) (client : Text) {q : List (Event V)}
      → get_queue client b ≡ some q
      → let n = b.event_count + 1 in
        let after = publish i var v (some t) now b in
        (after.event_count ≡ n)
        × (get_queue client after
            ≡ some (
                (if leb 500 (length q) then drop_oldest q else q)
                ++ variable_change i var v t n ∷ []))
  unfolding publish get_queue put
  publish_delivers i var v t now b client {q} h =
      (refl, find_queue-broadcast _ client b.client_queues q h)
