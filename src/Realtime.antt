-- ===== src/Realtime.antt =====
-- find_device/realtime/views.py: the cache of last-known values, the connection counters, and the
-- server-sent event streams over the event bus. Times are in seconds.
pub mod Streams
pub mod Delivery
pub mod Counting
pub mod Lockout
use phone_app.Base.{
  ℕ, zero, suc, ◌+◌, ◌-◌, ◌*◌, ◌≤◌, ◌<◌, ◌≡◌, ◌≢◌, ◌⊎◌, inl, inr, refl, sym, ap, ◌∙◌, Bool, true,
  false, not, ◌&&◌, ◌||◌, Option, none, some, List, [], ◌∷◌, ◌++◌, map, arith, tests, ltb, leb,
  ◌==◌, if◌then◌else◌, Bool-cases, Option-cases, Text, codes, eqb, length,
}
use phone_app.Base.{get_at, put_at, pop_at, lookup, insert}
use phone_app.Ads.State.{Value}
use phone_app.EventBus.{Bus, Event}

-- An entry of the cache: `{"value": ..., "ts": ...}`.
abbrev pub Entry : Type 0
Entry = Value × ℕ

-- `DeviceValueCache._store`
abbrev pub Cache : Type 0
Cache = List (ℕ × List (Text × Entry))

abbrev pub or_no_values : Option (List (Text × Entry)) → List (Text × Entry)
or_no_values none = []
or_no_values (some values) = values

-- `DeviceValueCache.get_all`
unfoldable pub get_all : ℕ → Cache → List (Text × Entry)
get_all device cache = or_no_values (get_at device cache)

-- `ts if ts is not None else time.time()`
abbrev pub or_now : Option ℕ → ℕ → ℕ
or_now none now = now
or_now (some ts) now = ts

-- `DeviceValueCache.update`
unfoldable pub update : ℕ → Text → Value → Option ℕ → ℕ → Cache → Cache
unfolding get_all
update device var v ts now cache =
    put_at device (insert var (v, or_now ts now) (get_all device cache)) cache

-- `DeviceValueCache.get`
unfoldable pub get : ℕ → Text → Cache → Option Entry
unfolding get_all
get device var cache = lookup var (get_all device cache)

-- `DeviceValueCache.clear_device`
unfoldable pub clear_device : ℕ → Cache → Cache
clear_device device cache = pop_at device cache

-- `_SSEConnectionRegistry._counts`
abbrev pub Counts : Type 0
Counts = List (ℕ × ℕ)

abbrev pub or_none : Option ℕ → ℕ
or_none none = 0
or_none (some n) = n

-- `count`, `increment` and `decrement`; a count of 0 has no key.
unfoldable pub count : ℕ → Counts → ℕ
count device counts = or_none (get_at device counts)

unfoldable pub increment : ℕ → Counts → Counts
unfolding count
increment device counts = put_at device (count device counts + 1) counts

unfoldable pub decrement : ℕ → Counts → Counts
unfolding count
decrement device counts =
    let left = count device counts - 1 in
    if left == 0 then pop_at device counts else put_at device left counts

-- `_MAX_SSE_CONNECTIONS_PER_DEVICE`
abbrev pub max_sse_connections_per_device : ℕ
max_sse_connections_per_device = 50

-- A generator: before its first `next`, between two of them, or at its end.
pub data Status : Type 0 where
  created running finished : Status

-- A response that was given out, with the arguments of its generator.
pub record Stream : Type 0 where
  pub device_id : ℕ
  pub client_id : Text
  pub status : Status

-- The three singletons, and the streams that were given out, the newest first.
pub record Realtime : Type 0 where
  pub bus : Bus Value
  pub cache : Cache
  pub counts : Counts
  pub streams : List Stream

-- PLCDevice rows with their apartments, and the users' memberships as (user, apartment).
pub record Rows : Type 0 where
  pub devices : List (ℕ × Option ℕ)
  pub memberships : List (ℕ × ℕ)
