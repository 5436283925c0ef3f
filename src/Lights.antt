-- ===== src/Lights.antt =====
-- What switches lights without a user: the sunset override of find_device/tasks.py, and the Christmas
-- chase of find_device/lighting_effects.py. Times of day are in microseconds.
pub mod Sunset
pub mod Chase
pub mod Override
use phone_app.Base.{
  ℕ, zero, suc, ◌+◌, ◌-◌, ◌*◌, ◌≤◌, ◌<◌, ◌≡◌, ◌≢◌, ◌⊎◌, inl, inr, refl, sym, ap, ◌∙◌, Bool, true,
  false, not, ◌&&◌, ◌||◌, Option, none, some, List, [], ◌∷◌, ◌++◌, map, arith, tests, ltb, leb,
  ◌==◌, if◌then◌else◌, Bool-cases, Option-cases, Text, codes, eqb, length,
}
use phone_app.Base.{get_or, ◌%◌}

-- `lights_should_be_on`
unfoldable pub lights_should_be_on : ℕ → ℕ → ℕ → Bool
lights_should_be_on now sunset sunrise =
    if leb sunset sunrise
    then leb sunset now && ltb now sunrise
    else leb sunset now || ltb now sunrise

-- The order of the chase over n devices: `range(n)`, then `range(n - 2, 0, -1)`.
abbrev pub range_from : ℕ → ℕ → List ℕ
range_from i zero = []
range_from i (suc n) = i ∷ range_from (suc i) n

abbrev pub down_to_one : ℕ → List ℕ
down_to_one zero = []
down_to_one (suc i) = suc i ∷ down_to_one i

unfoldable pub chase_order : ℕ → List ℕ
chase_order n = if ltb 1 n then range_from 0 n ++ down_to_one (n - 2) else 0 ∷ []

-- `lit = order[step % len(order)]`; the order is never empty.
unfoldable pub lit_at : ℕ → ℕ → ℕ
unfolding chase_order
lit_at n step = get_or (chase_order n) (step % length (chase_order n)) 0

-- What one step of the loop writes to the devices, in their order.
unfoldable pub chase_writes : ℕ → ℕ → List Bool
chase_writes n step = map (λ i. i == lit_at n step) (range_from 0 n)

-- A thread that runs `_run_chase(apartment_id, stop_event)`; the event is known by a number.
pub record Chaser : Type 0 where
  pub apartment_id : ℕ
  pub stop_event : ℕ
  pub is_set : Bool

-- `_active`, and the threads, the newest first; `fresh` is the number of the next event.
pub record Shows : Type 0 where
  pub active : ℕ → Option ℕ
  pub threads : List Chaser
  pub fresh : ℕ

abbrev pub no_shows : Shows
no_shows = record { active = λ a. none; threads = []; fresh = 0 }

unfoldable pub set_active : ℕ → Option ℕ → (ℕ → Option ℕ) → ℕ → Option ℕ
set_active a e active b = if a == b then e else active b

-- `start_christmas_chase`, with the entry of `_active`; true means that it was not running.
abbrev pub start_with : ℕ → Option ℕ → Shows → Bool × Shows
start_with a (some e) s = (false, s)
start_with a none s = (
  true,
  record {
    active = set_active a (some s.fresh) s.active;
    threads = record { apartment_id = a; stop_event = s.fresh; is_set = false } ∷ s.threads;
    fresh = suc s.fresh;
  },
)

unfoldable pub start_christmas_chase : ℕ → Shows → Bool × Shows
start_christmas_chase a s = start_with a (s.active a) s

-- `stop_event.set()`
unfoldable pub set_event : ℕ → List Chaser → List Chaser
set_event e [] = []
set_event e (t ∷ ts) =
    (if t.stop_event == e then record t { is_set = true } else t) ∷ set_event e ts

-- `stop_christmas_chase`; false means that nothing was running here, and all is switched off.
abbrev pub stop_with : ℕ → Option ℕ → Shows → Bool × Shows
stop_with a none s = (false, s)
stop_with a (some e) s =
    (true, record s { active = set_active a none s.active; threads = set_event e s.threads })

unfoldable pub stop_christmas_chase : ℕ → Shows → Bool × Shows
stop_christmas_chase a s = stop_with a (s.active a) s

unfoldable pub remove_thread : ℕ → ℕ → List Chaser → List Chaser
remove_thread a e [] = []
remove_thread a e (t ∷ ts) =
    if t.apartment_id == a && t.stop_event == e then ts else t ∷ remove_thread a e ts

-- The end of `_run_chase`, for whatever reason: it removes no entry but its own.
abbrev pub own_entry : ℕ → ℕ → Option ℕ → (ℕ → Option ℕ) → ℕ → Option ℕ
own_entry a e none active = active
own_entry a e (some f) active = if f == e then set_active a none active else active

unfoldable pub end_chase : ℕ → ℕ → Shows → Shows
end_chase a e s = record s {
  active = own_entry a e (s.active a) s.active;
  threads = remove_thread a e s.threads;
}

-- Calls and ends of threads, in any order.
pub data ShowStep : Type 0 where
  start_show stop_show : ℕ → ShowStep
  end_show : ℕ → ℕ → ShowStep

unfoldable pub show_step : ShowStep → Shows → Shows
show_step (start_show a) s = (start_christmas_chase a s).1
show_step (stop_show a) s = (stop_christmas_chase a s).1
show_step (end_show a e) s = end_chase a e s

unfoldable pub show_run : List ShowStep → Shows → Shows
show_run [] s = s
show_run (k ∷ ks) s = show_run ks (show_step k s)
