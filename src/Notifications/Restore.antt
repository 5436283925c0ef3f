-- ===== src/Notifications/Restore.antt =====
-- Subscriptions and restorations that pyads accepts or refuses.
use phone_app.Notifications.Invariant.{manager_run-AgreesAt, typed_entry, agree, AgreesAt}
use phone_app.Base.{
  eqb_refl, eqb_sound, ℕ, ◌≡◌, ◌≢◌, ◌⊎◌, refl, ◌∙◌, Bool, true, false, ◌||◌, Option, none, some,
  List, [], ◌∷◌, arith, Text, eqb, length,
}
use phone_app.Base.{lookup, insert, lookup-insert, lookup-erase, is_some}
use phone_app.Ads.State.{PlcType, Outcome, value, exception}
use phone_app.Notifications.{
  call_unsubscribe_all, call_restore, call_unsubscribe, call_subscribe, add_listener, register_once,
  ManagerCall, manager_run, manager_step, Notifier, Manager, new_manager, or_empty, add_callback,
  remove_callback, keep_handle, register, cancel, finish_subscribe, subscribe, drop_if_unused,
  remaining, unsubscribe, unsubscribe_all, restore_each, restore_subscriptions,
}

abbrev pub is_value : {A : Type 0} → Outcome A → Bool
is_value (value a) = true
is_value (exception e) = false

module _ {W : Type 0} (p : Notifier W) where
  -- The loop over a part of the types keeps every handle that is there, and adds those it reaches.
  keep_handle-accepted :
      (u var : Text) (s : Manager) (o : Outcome ℕ) (w : W)
      → is_value o ≡ true
      → let d = (keep_handle p var s (o, w)).1 in
        (d.subscriptions ≡ s.subscriptions)
        × (is_some (lookup u d.handles) ≡ (eqb var u || is_some (lookup u s.handles)))
  unfolding keep_handle
  keep_handle-accepted u var s (value n) w e = ground (arith, lookup-insert var u n s.handles)
  keep_handle-accepted u var s (exception _) w e = ground arith

  restore_each-handles :
      (u : Text) (ts : List (Text × PlcType)) (s : Manager) (w : W)
      → ((var : Text) (t : PlcType) (w : W) → is_value (p.add_notification var t 200 w).0 ≡ true)
      → length (or_empty (lookup u s.subscriptions)) ≢ 0
      → is_some (lookup u ts) || is_some (lookup u s.handles) ≡ true
      → is_some (lookup u (restore_each p ts s w).0.handles) ≡ true
  unfolding restore_each register
  restore_each-handles u [] s w accepts listened known = known
  restore_each-handles u ((var, t) ∷ rest) s w accepts listened known =
      let (o, w1) = p.add_notification var t 200 w in
      let (_, s1, w2) = register p var t 200 s w in
      ground (
        arith,
        eqb_sound var u,
        keep_handle-accepted u var s o w1 (accepts var t w),
        restore_each-handles u rest s w accepts,
        restore_each-handles u rest s1 w2 accepts,
      )

  -- No call turns a real manager into a mock one, or back.
  restore_each-real :
      (ts : List (Text × PlcType)) (s : Manager) (w : W) → (restore_each p ts s w).0.mock ≡ s.mock
  unfolding restore_each register keep_handle
  restore_each-real [] s w = refl
  restore_each-real ((var, t) ∷ rest) s w =
      let (_, s1, w1) = register p var t 200 s w in
      ground (arith, restore_each-real rest s w, restore_each-real rest s1 w1)

  drop_if_unused-real :
      (var : Text) (cbs : List ℕ) (s : Manager) (w : W)
      → (drop_if_unused p var cbs s w).0.mock ≡ s.mock
  unfolding drop_if_unused cancel
  drop_if_unused-real var [] s w = refl
  drop_if_unused-real var (c ∷ cbs) s w = refl

  step-real : (k : ManagerCall) (s : Manager) (w : W) → (manager_step p k s w).0.mock ≡ s.mock
  unfolding manager_step unsubscribe_all new_manager restore_subscriptions subscribe register_once
      register keep_handle finish_subscribe add_listener unsubscribe
  step-real (call_subscribe var t cb ms) s w = ground arith
  step-real (call_unsubscribe var cb) s w =
      let cbs = remaining p cb (or_empty (lookup var s.subscriptions)) in
      ground (arith, drop_if_unused-real var cbs s w)
  step-real call_unsubscribe_all s w = refl
  step-real call_restore s w =
      ground (arith, restore_each-real s.type_map (record s { handles = [] }) w)

  run-real :
      (ks : List ManagerCall) (s : Manager) (w : W)
      → s.mock ≡ false
      → (manager_run p ks s w).0.mock ≡ false
  unfolding manager_run
  run-real [] s w e = e
  run-real (k ∷ ks) s w e =
      let (s1, w1) = manager_step p k s w in run-real ks s1 w1 (step-real k s w ∙ e)

  listened :
      (var : Text) (s : Manager)
      → is_some (lookup var s.subscriptions) ≡ true
      → AgreesAt var s
      → length (or_empty (lookup var s.subscriptions)) ≢ 0
  listened var s has h =
      go (lookup var s.subscriptions) (lookup var s.handles) (lookup var s.type_map) has h
    where
      go :
          (subs : Option (List ℕ)) (h : Option ℕ) (t : Option PlcType)
          → is_some subs ≡ true
          → agree subs h t ≡ true
          → length (or_empty subs) ≢ 0
      go none h t n e = ground arith
      go (some []) h t n e = ground arith
      go (some (c ∷ cbs)) h t n e = ground arith

  restored :
      (var : Text) (s : Manager) (w : W)
      → ((var : Text) (t : PlcType) (w : W) → is_value (p.add_notification var t 200 w).0 ≡ true)
      → s.mock ≡ false
      → AgreesAt var s
      → (is_some (lookup var s.subscriptions) ≡ false)
        ⊎ (is_some (lookup var (restore_subscriptions p s w).0.handles) ≡ true)
  unfolding restore_subscriptions
  restored var s w accepts real h = ground (
    arith,
    typed_entry p var s,
    listened var s,
    restore_each-handles var s.type_map (record s { handles = [] }) w accepts,
  )

  -- After any calls of a new real manager, one restoration in which pyads accepts every registration
  -- gives each variable that has listeners an ADS notification.
  pub restore_covers :
      (ks : List ManagerCall) (w : W) (var : Text)
      → ((var : Text) (t : PlcType) (w : W) → is_value (p.add_notification var t 200 w).0 ≡ true)
      → let (s, u) = manager_run p ks (new_manager false) w in
        (is_some (lookup var s.subscriptions) ≡ false)
        ⊎ (is_some (lookup var (restore_subscriptions p s u).0.handles) ≡ true)
  unfolding new_manager
  restore_covers ks w var accepts =
      let (s, u) = manager_run p ks (new_manager false) w in
      restored var s u accepts (run-real ks (new_manager false) w refl)
        (manager_run-AgreesAt p ks false w var)

  -- A subscription that pyads refuses takes the callback back, also where an earlier call had put it
  -- there. So when a variable of a real manager has one subscriber but no ADS notification, as after a
  -- failed restoration, that subscriber is forgotten if it subscribes again and is refused.
  pub refused_retry_forgets :
      (var : Text) (t : PlcType) (cb ms : ℕ) (s : Manager) (w : W)
      → s.mock ≡ false
      → lookup var s.subscriptions ≡ some (cb ∷ [])
      → lookup var s.handles ≡ none
      → is_value (p.add_notification var t ms w).0 ≡ false
      → let (done, d, _) = subscribe p var t cb ms s w in
        (done ≡ false) × (lookup var d.subscriptions ≡ none)
  unfolding subscribe register_once register keep_handle finish_subscribe add_listener add_callback
      remove_callback
  refused_retry_forgets var t cb ms s w real listed no_handle refused = ground (
    arith,
    lookup-insert var var (cb ∷ []) s.subscriptions,
    lookup-erase var var (insert var (cb ∷ []) s.subscriptions),
    eqb_refl var,
  )
