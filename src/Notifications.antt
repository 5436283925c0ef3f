-- ===== src/Notifications.antt =====
-- find_device/plc/ads_notifications.py: `class NotificationManager`, each method as the code under its
-- lock. A callback is known by a number.
pub mod Invariant
pub mod Restore
use phone_app.Base.{
  is_some, any, ℕ, zero, suc, ◌+◌, ◌-◌, ◌*◌, ◌≤◌, ◌<◌, ◌≡◌, ◌≢◌, ◌⊎◌, inl, inr, refl, sym, ap, ◌∙◌,
  Bool, true, false, not, ◌&&◌, ◌||◌, Option, none, some, List, [], ◌∷◌, ◌++◌, map, arith, tests,
  ltb, leb, ◌==◌, if◌then◌else◌, Bool-cases, Option-cases, Text, codes, eqb, length,
}
use phone_app.Base.{lookup, insert, erase}
use phone_app.Ads.State.{PlcType, Outcome, value, exception}

-- `add_device_notification` and `del_device_notification` of `self._client._conn`; without a connection
-- they are exceptions, and the exceptions of the second are swallowed.
pub record Notifier (W : Type 0) : Type 0 where
  pub add_notification : Text → PlcType → ℕ → W → Outcome ℕ × W
  pub del_notification : ℕ → W → W

pub record Manager : Type 0 where
  pub mock : Bool
  pub subscriptions : List (Text × List ℕ)
  pub handles : List (Text × ℕ)
  pub type_map : List (Text × PlcType)
  pub running : Bool

-- `NotificationManager.__init__`
unfoldable pub new_manager : Bool → Manager
new_manager mock = record {
  mock = mock;
  subscriptions = [];
  handles = [];
  type_map = [];
  running = false;
}

abbrev pub is_callback : ℕ → List ℕ → Bool
is_callback cb = any (λ c. c == cb)

abbrev pub or_empty : Option (List ℕ) → List ℕ
or_empty none = []
or_empty (some cbs) = cbs

-- `list.append` where the callback is new, and `list.remove`.
unfoldable pub add_callback : ℕ → List ℕ → List ℕ
add_callback cb cbs = if is_callback cb cbs then cbs else cbs ++ cb ∷ []

unfoldable pub remove_callback : ℕ → List ℕ → List ℕ
remove_callback cb [] = []
remove_callback cb (c ∷ cbs) = if c == cb then cbs else c ∷ remove_callback cb cbs

-- A list of callbacks is stored, or its key deleted where it is empty.
abbrev pub store_callbacks : Text → List ℕ → List (Text × List ℕ) → List (Text × List ℕ)
store_callbacks var [] subs = erase var subs
store_callbacks var (c ∷ cbs) subs = insert var (c ∷ cbs) subs

-- The callback and the type are noted before pyads is asked.
unfoldable pub add_listener : Text → PlcType → ℕ → Manager → Manager
unfolding add_callback
add_listener var t cb s = record s {
  subscriptions =
      insert var (add_callback cb (or_empty (lookup var s.subscriptions))) s.subscriptions;
  type_map = insert var t s.type_map;
}

module _ {W : Type 0} (p : Notifier W) where
  -- `_register_ads_notification`
  unfoldable pub keep_handle : Text → Manager → Outcome ℕ × W → Bool × Manager × W
  keep_handle var s (value h, w) = (true, record s { handles = insert var h s.handles }, w)
  keep_handle var s (exception e, w) = (false, s, w)

  unfoldable pub register : Text → PlcType → ℕ → Manager → W → Bool × Manager × W
  unfolding keep_handle
  register var t cycle_ms s w = keep_handle var s (p.add_notification var t cycle_ms w)

  -- `_cancel_ads_notification`
  unfoldable pub delete_handle : Option ℕ → W → W
  delete_handle none w = w
  delete_handle (some h) w = p.del_notification h w

  unfoldable pub cancel : Text → Manager → W → Manager × W
  unfolding delete_handle
  cancel var s w =
      (record s { handles = erase var s.handles }, delete_handle (lookup var s.handles) w)

  -- After a registration: the callback goes again, or the dispatch thread runs.
  unfoldable pub finish_subscribe : Text → ℕ → Bool × Manager × W → Bool × Manager × W
  unfolding remove_callback
  finish_subscribe var cb (true, s, w) = (true, record s { running = true }, w)
  finish_subscribe var cb (false, s, w) = (
    false,
    record s {
      subscriptions =
          store_callbacks var (remove_callback cb (or_empty (lookup var s.subscriptions)))
            s.subscriptions;
    },
    w,
  )

  -- The ADS notification is registered only once per variable.
  unfoldable pub register_once : Text → PlcType → ℕ → Manager → W → Bool × Manager × W
  register_once var t cycle_ms s w =
      if is_some (lookup var s.handles) then (true, s, w) else register var t cycle_ms s w

  -- `subscribe`
  unfoldable pub subscribe : Text → PlcType → ℕ → ℕ → Manager → W → Bool × Manager × W
  subscribe var t cb cycle_ms s w =
      if s.mock
      then (false, s, w)
      else finish_subscribe var cb (register_once var t cycle_ms (add_listener var t cb s) w)

  -- The end of `unsubscribe`: without listeners nothing is kept of the variable.
  unfoldable pub drop_if_unused : Text → List ℕ → Manager → W → Manager × W
  unfolding cancel
  drop_if_unused var (c ∷ cbs) s w =
      (record s { subscriptions = insert var (c ∷ cbs) s.subscriptions }, w)
  drop_if_unused var [] s w =
      cancel var
        (record s { subscriptions = erase var s.subscriptions; type_map = erase var s.type_map }) w

  abbrev pub remaining : Option ℕ → List ℕ → List ℕ
  remaining none cbs = []
  remaining (some cb) cbs = remove_callback cb cbs

  -- `unsubscribe`; without a callback all of them go.
  unfoldable pub unsubscribe : Text → Option ℕ → Manager → W → Manager × W
  unsubscribe var cb s w =
      if is_some (lookup var s.subscriptions)
      then drop_if_unused var (remaining cb (or_empty (lookup var s.subscriptions))) s w
      else (s, w)

  -- `subscribe_many`
  unfoldable pub subscribe_many : List (Text × PlcType) → ℕ → ℕ → Manager → W → ℕ × Manager × W
  subscribe_many [] cb cycle_ms s w = (0, s, w)
  subscribe_many ((var, t) ∷ rest) cb cycle_ms s w =
      let (done, s1, w1) = subscribe var t cb cycle_ms s w in
      let (count, s2, w2) = subscribe_many rest cb cycle_ms s1 w1 in
      ((if done then suc count else count), s2, w2)

  unfoldable pub delete_each : List (Text × ℕ) → W → W
  delete_each [] w = w
  delete_each ((var, h) ∷ rest) w = delete_each rest (p.del_notification h w)

  -- `unsubscribe_all`
  unfoldable pub unsubscribe_all : Manager → W → Manager × W
  unfolding delete_each
  unsubscribe_all s w = (new_manager s.mock, delete_each s.handles w)

  -- The loop of `restore_subscriptions`; the callbacks that it asks for are never changed by it.
  unfoldable pub restore_each : List (Text × PlcType) → Manager → W → Manager × W
  unfolding register
  restore_each [] s w = (s, w)
  restore_each ((var, t) ∷ rest) s w =
      if length (or_empty (lookup var s.subscriptions)) == 0
      then restore_each rest s w
      else let (_, s1, w1) = register var t 200 s w in restore_each rest s1 w1

  -- `restore_subscriptions`
  unfoldable pub restore_subscriptions : Manager → W → Manager × W
  restore_subscriptions s w =
      if s.mock then (s, w) else restore_each s.type_map (record s { handles = [] }) w

-- The calls of a manager, in the order in which they get its lock.
pub data ManagerCall : Type 0 where
  call_subscribe : Text → PlcType → ℕ → ℕ → ManagerCall
  call_unsubscribe : Text → Option ℕ → ManagerCall
  call_unsubscribe_all call_restore : ManagerCall

module _ {W : Type 0} (p : Notifier W) where
  unfoldable pub manager_step : ManagerCall → Manager → W → Manager × W
  manager_step (call_subscribe var t cb cycle_ms) s w =
      let (_, s1, w1) = subscribe p var t cb cycle_ms s w in (s1, w1)
  manager_step (call_unsubscribe var cb) s w = unsubscribe p var cb s w
  manager_step call_unsubscribe_all s w = unsubscribe_all p s w
  manager_step call_restore s w = restore_subscriptions p s w

  unfoldable pub manager_run : List ManagerCall → Manager → W → Manager × W
  manager_run [] s w = (s, w)
  manager_run (k ∷ ks) s w = let (s1, w1) = manager_step k s w in manager_run ks s1 w1
