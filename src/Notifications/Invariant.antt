-- ===== src/Notifications/Invariant.antt =====
-- The tables of a NotificationManager agree: subscriptions, ADS handles and types.
use phone_app.Base.{
  eqb_refl, eqb_sound, ℕ, ◌≡◌, ◌≢◌, ◌⊎◌, inl, inr, refl, Bool, true, false, Option, none, some,
  List, [], ◌∷◌, arith, ◌==◌, Bool-cases, Option-cases, Text, length,
}
use phone_app.Base.{lookup, lookup-insert, lookup-erase, is_some}
use phone_app.Ads.State.{PlcType, Outcome, value, exception}
use phone_app.Notifications.{
  register_once, add_listener, Notifier, Manager, new_manager, or_empty, add_callback,
  remove_callback, store_callbacks, keep_handle, register, cancel, finish_subscribe, subscribe,
  drop_if_unused, remaining, unsubscribe, unsubscribe_all, restore_each, restore_subscriptions,
  ManagerCall, call_subscribe, call_unsubscribe, call_unsubscribe_all, call_restore, manager_step,
  manager_run,
}

-- What may be kept of one variable: no empty list of callbacks, no ADS notification that nobody
-- listens to, and the type of every variable that somebody does listen to.
abbrev pub agree : Option (List ℕ) → Option ℕ → Option PlcType → Bool
agree none none t = true
agree none (some h) t = false
agree (some []) h t = false
agree (some (c ∷ cbs)) h none = false
agree (some (c ∷ cbs)) h (some t) = true

abbrev pub AgreesAt : Text → Manager → Type 0
AgreesAt u s = agree (lookup u s.subscriptions) (lookup u s.handles) (lookup u s.type_map) ≡ true

-- A list of callbacks that is stored for a variable with a type and, if it is empty, without handle.
store-AgreesAt :
    (u var : Text) (cbs : List ℕ) (s : Manager)
    → is_some (lookup var s.type_map) ≡ true
    → (length cbs ≢ 0) ⊎ (lookup var s.handles ≡ none)
    → AgreesAt u s
    → AgreesAt u (record s { subscriptions = store_callbacks var cbs s.subscriptions })
store-AgreesAt u var [] s typed ok h =
    ground (arith, lookup-erase var u s.subscriptions, eqb_sound var u)
store-AgreesAt u var (c ∷ cbs) s typed ok h =
    ground (arith, lookup-insert var u (c ∷ cbs) s.subscriptions, eqb_sound var u)

typed_listener :
    (var : Text) (s : Manager)
    → length (or_empty (lookup var s.subscriptions)) ≢ 0
    → AgreesAt var s
    → is_some (lookup var s.type_map) ≡ true
typed_listener var s some_listener h =
    go (lookup var s.subscriptions) (lookup var s.handles) (lookup var s.type_map) some_listener h
  where
    go :
        (subs : Option (List ℕ)) (h : Option ℕ) (t : Option PlcType)
        → length (or_empty subs) ≢ 0
        → agree subs h t ≡ true
        → is_some t ≡ true
    go none none t n e = ground arith
    go none (some _) t n e = ground arith
    go (some []) _ t n e = ground arith
    go (some (c ∷ cbs)) _ none n e = ground arith
    go (some (c ∷ cbs)) _ (some t) n e = refl

keep_handle-AgreesAt :
    {W : Type 0} (p : Notifier W) (u var : Text) (s : Manager) (o : Outcome ℕ) (w : W)
    → length (or_empty (lookup var s.subscriptions)) ≢ 0
    → AgreesAt u s
    → AgreesAt u (keep_handle p var s (o, w)).1
unfolding keep_handle
keep_handle-AgreesAt p u var s (exception e) w some_listener h = h
keep_handle-AgreesAt p u var s (value n) w some_listener h =
    ground (arith, lookup-insert var u n s.handles, eqb_sound var u, typed_listener u s)

add_callback-nonempty : (cb : ℕ) (cbs : List ℕ) → length (add_callback cb cbs) ≢ 0
unfolding add_callback
add_callback-nonempty cb [] = ground arith
add_callback-nonempty cb (c ∷ cbs) = ground arith

add_listener-listens :
    (var : Text) (t : PlcType) (cb : ℕ) (s : Manager)
    → let d = add_listener var t cb s in
      (length (or_empty (lookup var d.subscriptions)) ≢ 0)
      × (is_some (lookup var d.type_map) ≡ true)
unfolding add_listener
add_listener-listens var t cb s =
    let cbs = add_callback cb (or_empty (lookup var s.subscriptions)) in
    ground (
      arith,
      lookup-insert var var cbs s.subscriptions,
      lookup-insert var var t s.type_map,
      eqb_refl var,
      add_callback-nonempty cb (or_empty (lookup var s.subscriptions)),
    )

add_listener-AgreesAt :
    (u var : Text) (t : PlcType) (cb : ℕ) (s : Manager)
    → AgreesAt u s
    → AgreesAt u (add_listener var t cb s)
unfolding add_listener
add_listener-AgreesAt u var t cb s h =
    let cbs = add_callback cb (or_empty (lookup var s.subscriptions)) in
    ground (
      arith,
      lookup-insert var u cbs s.subscriptions,
      lookup-insert var u t s.type_map,
      add_callback-nonempty cb (or_empty (lookup var s.subscriptions)),
    )

new-AgreesAt : (u : Text) (mock : Bool) → AgreesAt u (new_manager mock)
unfolding new_manager
new-AgreesAt u mock = refl

cleared-agree :
    (subs : Option (List ℕ)) (h : Option ℕ) (t : Option PlcType)
    → agree subs h t ≡ true
    → agree subs none t ≡ true
cleared-agree none h t e = refl
cleared-agree (some []) h t e = e
cleared-agree (some (c ∷ cbs)) h none e = e
cleared-agree (some (c ∷ cbs)) h (some _) e = refl

module _ {W : Type 0} (p : Notifier W) where
  -- Registering a variable that has a listener.
  register-AgreesAt :
      (u var : Text) (t : PlcType) (ms : ℕ) (s : Manager) (w : W)
      → length (or_empty (lookup var s.subscriptions)) ≢ 0
      → AgreesAt u s
      → AgreesAt u (register p var t ms s w).1
  unfolding register
  register-AgreesAt u var t ms s w some_listener h =
      let (o, w1) = p.add_notification var t ms w in
      keep_handle-AgreesAt p u var s o w1 some_listener h

  restore_each-AgreesAt :
      (u : Text) (ts : List (Text × PlcType)) (s : Manager) (w : W)
      → AgreesAt u s
      → AgreesAt u (restore_each p ts s w).0
  unfolding restore_each
  restore_each-AgreesAt u [] s w h = h
  restore_each-AgreesAt u ((var, t) ∷ rest) s w h =
      elim (Bool-cases (length (or_empty (lookup var s.subscriptions)) == 0)) [
        | inl none_left ↦ rw none_left (restore_each-AgreesAt u rest s w h)
        | inr listened ↦
            let (_, s1, w1) = register p var t 200 s w in
            rw listened (
              restore_each-AgreesAt u rest s1 w1
                (register-AgreesAt u var t 200 s w (ground arith) h))
      ]

  finish-AgreesAt :
      (u var : Text) (cb : ℕ) (s : Manager) (o : Outcome ℕ) (w : W)
      → length (or_empty (lookup var s.subscriptions)) ≢ 0
      → is_some (lookup var s.type_map) ≡ true
      → lookup var s.handles ≡ none
      → AgreesAt u s
      → AgreesAt u (finish_subscribe p var cb (keep_handle p var s (o, w))).1
  unfolding finish_subscribe keep_handle
  finish-AgreesAt u var cb s (value n) w some_listener typed no_handle h =
      keep_handle-AgreesAt p u var s (value n) w some_listener h
  finish-AgreesAt u var cb s (exception e) w some_listener typed no_handle h =
      store-AgreesAt u var (remove_callback cb (or_empty (lookup var s.subscriptions))) s typed
        (inr no_handle) h

  register_once-AgreesAt :
      (u var : Text) (t : PlcType) (cb ms : ℕ) (s : Manager) (w : W)
      → length (or_empty (lookup var s.subscriptions)) ≢ 0
      → is_some (lookup var s.type_map) ≡ true
      → AgreesAt u s
      → AgreesAt u (finish_subscribe p var cb (register_once p var t ms s w)).1
  unfolding register_once register finish_subscribe
  register_once-AgreesAt u var t cb ms s w some_listener typed h =
      elim (Option-cases (lookup var s.handles)) [
        | inl no_handle ↦
            let (o, w1) = p.add_notification var t ms w in
            rw no_handle (finish-AgreesAt u var cb s o w1 some_listener typed no_handle h)
        | inr (n, has) ↦ rw has h
      ]

  subscribe-AgreesAt :
      (u var : Text) (t : PlcType) (cb ms : ℕ) (s : Manager) (w : W)
      → AgreesAt u s
      → AgreesAt u (subscribe p var t cb ms s w).1
  unfolding subscribe
  subscribe-AgreesAt u var t cb ms s w h =
      let added = add_listener var t cb s in
      ground (
        arith,
        add_listener-AgreesAt u var t cb s h,
        add_listener-listens var t cb s,
        register_once-AgreesAt u var t cb ms added w,
      )

  drop_if_unused-AgreesAt :
      (u var : Text) (cbs : List ℕ) (s : Manager) (w : W)
      → is_some (lookup var s.type_map) ≡ true
      → AgreesAt u s
      → AgreesAt u (drop_if_unused p var cbs s w).0
  unfolding drop_if_unused cancel
  drop_if_unused-AgreesAt u var (c ∷ cbs) s w typed h =
      store-AgreesAt u var (c ∷ cbs) s typed (inl (ground arith)) h
  drop_if_unused-AgreesAt u var [] s w typed h = ground (
    arith,
    lookup-erase var u s.subscriptions,
    lookup-erase var u s.handles,
    lookup-erase var u s.type_map,
  )

  -- A variable with an entry has a type, and so has one with callbacks.
  pub typed_entry :
      (var : Text) (s : Manager)
      → is_some (lookup var s.subscriptions) ≡ true
      → AgreesAt var s
      → is_some (lookup var s.type_map) ≡ true
  typed_entry var s has h =
      typed_listener var s
        (go (lookup var s.subscriptions) (lookup var s.handles) (lookup var s.type_map) has h) h
    where
      go :
          (subs : Option (List ℕ)) (h : Option ℕ) (t : Option PlcType)
          → is_some subs ≡ true
          → agree subs h t ≡ true
          → length (or_empty subs) ≢ 0
      go none h t n e = ground arith
      go (some []) h t n e = ground arith
      go (some (c ∷ cbs)) h t n e = ground arith

  unsubscribe-AgreesAt :
      (u var : Text) (cb : Option ℕ) (s : Manager) (w : W)
      → AgreesAt var s
      → AgreesAt u s
      → AgreesAt u (unsubscribe p var cb s w).0
  unfolding unsubscribe
  unsubscribe-AgreesAt u var cb s w hv h =
      let cbs = remaining p cb (or_empty (lookup var s.subscriptions)) in
      ground (arith, drop_if_unused-AgreesAt u var cbs s w, typed_entry var s)

  restore-AgreesAt :
      (u : Text) (s : Manager) (w : W) → AgreesAt u s → AgreesAt u (restore_subscriptions p s w).0
  unfolding restore_subscriptions
  restore-AgreesAt u s w h =
      let cleared = record s { handles = [] } in
      ground (
        arith,
        restore_each-AgreesAt u s.type_map cleared w,
        cleared-agree (lookup u s.subscriptions) (lookup u s.handles) (lookup u s.type_map),
      )

  step-AgreesAt :
      (k : ManagerCall) (s : Manager) (w : W)
      → ((u : Text) → AgreesAt u s)
      → (u : Text) → AgreesAt u (manager_step p k s w).0
  unfolding manager_step unsubscribe_all
  step-AgreesAt (call_subscribe var t cb ms) s w h u = subscribe-AgreesAt u var t cb ms s w (h u)
  step-AgreesAt (call_unsubscribe var cb) s w h u = unsubscribe-AgreesAt u var cb s w (h var) (h u)
  step-AgreesAt call_unsubscribe_all s w h u = new-AgreesAt u s.mock
  step-AgreesAt call_restore s w h u = restore-AgreesAt u s w (h u)

  run-AgreesAt :
      (ks : List ManagerCall) (s : Manager) (w : W)
      → ((u : Text) → AgreesAt u s)
      → (u : Text) → AgreesAt u (manager_run p ks s w).0
  unfolding manager_run
  run-AgreesAt [] s w h u = h u
  run-AgreesAt (k ∷ ks) s w h u =
      let (s1, w1) = manager_step p k s w in run-AgreesAt ks s1 w1 (step-AgreesAt k s w h) u

  -- Whatever pyads answers and in whatever order a new manager is called, its tables agree on every
  -- variable: an ADS notification is only registered while somebody listens to the variable, no empty
  -- list of callbacks is kept, and the type of every variable with listeners is known.
  pub manager_run-AgreesAt :
      (ks : List ManagerCall) (mock : Bool) (w : W) (var : Text)
      → AgreesAt var (manager_run p ks (new_manager mock) w).0
  manager_run-AgreesAt ks mock w var =
      run-AgreesAt ks (new_manager mock) w (λ u. new-AgreesAt u mock) var
