-- ===== src/Automations/Once.antt =====
-- The callbacks of the automation rules: each stands once with its variable while its rule is
-- subscribed, and nowhere when it is not.
use phone_app.Base.{
  eqb_sound, ℕ, ◌+◌, ◌-◌, ◌≡◌, refl, Bool, true, false, not, ◌&&◌, some, List, [], ◌∷◌, ◌++◌, arith,
  ltb, ◌==◌, if◌then◌else◌, Text, eqb,
}
use phone_app.Base.{lookup, lookup-insert, lookup-erase}
use phone_app.Ads.State.{PlcType}
use phone_app.Notifications.{
  store_callbacks, add_listener, keep_handle, register, cancel, register_once, drop_if_unused,
  finish_subscribe, Notifier, Manager, subscribe, unsubscribe, or_empty, add_callback,
  remove_callback, is_callback,
}
use phone_app.Automations.{callbacks_of}

-- How often a number stands in a list.
abbrev pub times : ℕ → List ℕ → ℕ
times c [] = 0
times c (d ∷ ds) = (if d == c then 1 else 0) + times c ds

pub times-append : (c : ℕ) (xs ys : List ℕ) → times c (xs ++ ys) ≡ times c xs + times c ys
times-append c [] ys = ground arith
times-append c (x ∷ xs) ys = ground (arith, times-append c xs ys)

is_callback-times : (c : ℕ) (cs : List ℕ) → is_callback c cs ≡ ltb 0 (times c cs)
is_callback-times c [] = refl
is_callback-times c (d ∷ ds) = ground (arith, is_callback-times c ds)

add_callback-times :
    (c n : ℕ) (cs : List ℕ)
    → times n cs ≡ 0
    → times c (add_callback n cs) ≡ (if n == c then 1 else times c cs)
unfolding add_callback
add_callback-times c n cs new = ground (arith, is_callback-times n cs, times-append c cs (n ∷ []))

remove_callback-times :
    (c n : ℕ) (cs : List ℕ)
    → times c (remove_callback n cs) ≡ (if n == c then times c cs - 1 else times c cs)
unfolding remove_callback
remove_callback-times c n [] = ground arith
remove_callback-times c n (d ∷ ds) = ground (arith, remove_callback-times c n ds)

stored_callbacks :
    (var u : Text) (cs : List ℕ) (subs : List (Text × List ℕ))
    → or_empty (lookup u (store_callbacks var cs subs))
      ≡ (if eqb var u then cs else or_empty (lookup u subs))
stored_callbacks var u [] subs = ground (arith, lookup-erase var u subs)
stored_callbacks var u (c ∷ cs) subs = ground (arith, lookup-insert var u (c ∷ cs) subs)

module _ {W : Type 0} (n : Notifier W) where
  register_once-subscriptions :
      (var : Text) (t : PlcType) (ms : ℕ) (m : Manager) (w : W)
      → (register_once n var t ms m w).1.subscriptions ≡ m.subscriptions
  unfolding register_once register keep_handle
  register_once-subscriptions var t ms m w = ground arith

  finish_subscribe-times :
      (var u : Text) (cb c : ℕ) (done : Bool) (m : Manager) (w : W)
      → let (done1, m1, _) = finish_subscribe n var cb (done, m, w) in
        (done1 ≡ done)
        × (times c (callbacks_of u m1) ≡ (
            if not done && (eqb var u && cb == c)
            then times c (callbacks_of u m) - 1
            else times c (callbacks_of u m)))
  unfolding finish_subscribe
  finish_subscribe-times var u cb c true m w = (refl, refl)
  finish_subscribe-times var u cb c false m w = ground (
    arith,
    stored_callbacks var u (remove_callback cb (callbacks_of var m)) m.subscriptions,
    remove_callback-times c cb (callbacks_of var m),
    eqb_sound var u,
  )

  add_listener-times :
      (var u : Text) (t : PlcType) (cb c : ℕ) (m : Manager)
      → times cb (callbacks_of var m) ≡ 0
      → times c (callbacks_of u (add_listener var t cb m))
        ≡ (if eqb var u && cb == c then 1 else times c (callbacks_of u m))
  unfolding add_listener
  add_listener-times var u t cb c m new = ground (
    arith,
    lookup-insert var u (add_callback cb (callbacks_of var m)) m.subscriptions,
    add_callback-times c cb (callbacks_of var m) new,
    eqb_sound var u,
  )

  -- A subscription that succeeds adds the new callback once; one that fails changes nothing.
  pub subscribe-times :
      (var u : Text) (t : PlcType) (cb c ms : ℕ) (m : Manager) (w : W)
      → times cb (callbacks_of var m) ≡ 0
      → let (done, m1, _) = subscribe n var t cb ms m w in
        times c (callbacks_of u m1)
        ≡ (if done && (eqb var u && cb == c) then 1 else times c (callbacks_of u m))
  unfolding subscribe
  subscribe-times var u t cb c ms m w new =
      let l = add_listener var t cb m in
      let (done, m1, w1) = register_once n var t ms l w in
      ground (
        arith,
        finish_subscribe-times var u cb c done m1 w1,
        register_once-subscriptions var t ms l w,
        add_listener-times var u t cb c m new,
        eqb_sound var u,
      )

  pub unsubscribe-times :
      (var u : Text) (cb c : ℕ) (m : Manager) (w : W)
      → let m1 = (unsubscribe n var (some cb) m w).0 in
        times c (callbacks_of u m1) ≡ (
          if eqb var u && cb == c
          then times c (callbacks_of u m) - 1
          else times c (callbacks_of u m))
  unfolding unsubscribe drop_if_unused cancel
  unsubscribe-times var u cb c m w = ground (
    arith,
    lookup-insert var u (remove_callback cb (callbacks_of var m)) m.subscriptions,
    lookup-erase var u m.subscriptions,
    remove_callback-times c cb (callbacks_of var m),
    eqb_sound var u,
  )
