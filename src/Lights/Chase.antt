-- ===== src/Lights/Chase.antt =====
-- The Christmas chase: one lamp at a time, and one show per apartment.
use phone_app.Base.{
  All, ℕ, zero, suc, ◌+◌, ◌-◌, ◌≤◌, ◌<◌, ◌≡◌, ◌⊎◌, inl, inr, refl, Bool, true, not, ◌&&◌, Option,
  none, some, List, [], ◌∷◌, ◌++◌, map, arith, ltb, leb, ◌==◌, if◌then◌else◌, Bool-cases, length,
}
use phone_app.Base.{get_or, ◌%◌}
use phone_app.Lights.{
  range_from, down_to_one, chase_order, lit_at, chase_writes, Chaser, Shows, no_shows, set_active,
  start_christmas_chase, set_event, stop_christmas_chase, remove_thread, own_entry, start_with,
  stop_with, end_chase, ShowStep, start_show, stop_show, end_show, show_step, show_run,
}

abbrev pub count_true : List Bool → ℕ
count_true [] = 0
count_true (b ∷ bs) = (if b then 1 else 0) + count_true bs

abbrev pub count_running : ℕ → List Chaser → ℕ
count_running a [] = 0
count_running a (t ∷ ts) =
    (if t.apartment_id == a && not t.is_set then 1 else 0) + count_running a ts

-- Threads in the order of their events: one that is not told to stop is the registered one.
abbrev Registered : ℕ → (ℕ → Option ℕ) → List Chaser → Type 0
Registered bound active [] = Unit
Registered bound active (t ∷ ts) =
    (t.stop_event < bound)
    × ((t.is_set ≡ true) ⊎ (active t.apartment_id ≡ some t.stop_event))
    × Registered t.stop_event active ts

Registered-weaken :
    (b b' : ℕ) (active : ℕ → Option ℕ) (ts : List Chaser)
    → b ≤ b'
    → Registered b active ts
    → Registered b' active ts
Registered-weaken b b' active [] le h = tt
Registered-weaken b b' active (t ∷ ts) le h = ground arith

-- An apartment that has no entry gets one: no running thread was its.
Registered-start :
    (b a e : ℕ) (active : ℕ → Option ℕ) (ts : List Chaser)
    → active a ≡ none
    → Registered b active ts
    → Registered b (set_active a (some e) active) ts
unfolding set_active
Registered-start b a e active [] new h = tt
Registered-start b a e active (t ∷ ts) new h =
    ground (arith, Registered-start t.stop_event a e active ts new)

Registered-stop :
    (b a e : ℕ) (active : ℕ → Option ℕ) (ts : List Chaser)
    → active a ≡ some e
    → Registered b active ts
    → Registered b (set_active a none active) (set_event e ts)
unfolding set_active set_event
Registered-stop b a e active [] has h = tt
Registered-stop b a e active (t ∷ ts) has h =
    ground (arith, Registered-stop t.stop_event a e active ts has)

-- No thread after one that is older than an event has that event.
Registered-old :
    (b a e : ℕ) (active : ℕ → Option ℕ) (ts : List Chaser)
    → b ≤ e
    → active a ≡ some e
    → Registered b active ts
    → Registered b (set_active a none active) ts
unfolding set_active
Registered-old b a e active [] le has h = tt
Registered-old b a e active (t ∷ ts) le has h =
    ground (arith, Registered-old t.stop_event a e active ts)

Registered-end_own :
    (b a e : ℕ) (active : ℕ → Option ℕ) (ts : List Chaser)
    → active a ≡ some e
    → Registered b active ts
    → Registered b (set_active a none active) (remove_thread a e ts)
unfolding set_active remove_thread
Registered-end_own b a e active [] has h = tt
Registered-end_own b a e active (t ∷ ts) has h = ground (
  arith,
  Registered-old t.stop_event a e active ts,
  Registered-end_own t.stop_event a e active ts has,
  Registered-weaken t.stop_event b (set_active a none active) ts,
)

Registered-end :
    (b a e : ℕ) (active : ℕ → Option ℕ) (ts : List Chaser)
    → Registered b active ts
    → Registered b active (remove_thread a e ts)
unfolding remove_thread
Registered-end b a e active [] h = tt
Registered-end b a e active (t ∷ ts) h =
    ground
      (arith, Registered-end t.stop_event a e active ts, Registered-weaken t.stop_event b active ts)

abbrev AreRegistered : Shows → Type 0
AreRegistered s = Registered s.fresh s.active s.threads

start_with-AreRegistered :
    (a : ℕ) (o : Option ℕ) (s : Shows)
    → s.active a ≡ o
    → AreRegistered s
    → AreRegistered (start_with a o s).1
unfolding set_active
start_with-AreRegistered a (some e) s has h = h
start_with-AreRegistered a none s new h =
    (ground arith, ground arith, Registered-start s.fresh a s.fresh s.active s.threads new h)

stop_with-AreRegistered :
    (a : ℕ) (o : Option ℕ) (s : Shows)
    → s.active a ≡ o
    → AreRegistered s
    → AreRegistered (stop_with a o s).1
stop_with-AreRegistered a none s new h = h
stop_with-AreRegistered a (some e) s has h = Registered-stop s.fresh a e s.active s.threads has h

own_entry-Registered :
    (a e : ℕ) (o : Option ℕ) (s : Shows)
    → s.active a ≡ o
    → AreRegistered s
    → Registered s.fresh (own_entry a e o s.active) (remove_thread a e s.threads)
own_entry-Registered a e none s new h = Registered-end s.fresh a e s.active s.threads h
own_entry-Registered a e (some f) s has h = ground (
  arith,
  Registered-end s.fresh a e s.active s.threads,
  Registered-end_own s.fresh a e s.active s.threads,
)

step-AreRegistered : (k : ShowStep) (s : Shows) → AreRegistered s → AreRegistered (show_step k s)
unfolding show_step start_christmas_chase stop_christmas_chase end_chase
step-AreRegistered (start_show a) s h = start_with-AreRegistered a (s.active a) s refl h
step-AreRegistered (stop_show a) s h = stop_with-AreRegistered a (s.active a) s refl h
step-AreRegistered (end_show a e) s h = own_entry-Registered a e (s.active a) s refl h

run-AreRegistered :
    (ks : List ShowStep) (s : Shows) → AreRegistered s → AreRegistered (show_run ks s)
unfolding show_run
run-AreRegistered [] s h = h
run-AreRegistered (k ∷ ks) s h = run-AreRegistered ks (show_step k s) (step-AreRegistered k s h)

count_older :
    (a b e : ℕ) (active : ℕ → Option ℕ) (ts : List Chaser)
    → active a ≡ some e
    → b ≤ e
    → Registered b active ts
    → count_running a ts ≡ 0
count_older a b e active [] has le h = refl
count_older a b e active (t ∷ ts) has le h =
    ground (arith, count_older a t.stop_event e active ts has)

running_at_most_one :
    (a b : ℕ) (active : ℕ → Option ℕ) (ts : List Chaser)
    → Registered b active ts
    → count_running a ts ≤ 1
running_at_most_one a b active [] h = ground arith
running_at_most_one a b active (t ∷ ts) h = ground (
  arith,
  running_at_most_one a t.stop_event active ts,
  count_older a t.stop_event t.stop_event active ts,
)

-- Whatever the order in which shows are started and stopped and their threads end or crash, at most
-- one thread of an apartment that is not told to stop drives its lights.
pub one_show : (ks : List ShowStep) (a : ℕ) → count_running a (show_run ks no_shows).threads ≤ 1
one_show ks a =
    let s = show_run ks no_shows in
    running_at_most_one a s.fresh s.active s.threads (run-AreRegistered ks no_shows tt)

count_from :
    (i n lit : ℕ)
    → count_true (map (λ j. j == lit) (range_from i n))
      ≡ (if leb i lit && ltb lit (i + n) then 1 else 0)
count_from i zero lit = ground arith
count_from i (suc n) lit = ground (arith, count_from (suc i) n lit)

get_or-below :
    (bound : ℕ) (xs : List ℕ) (i : ℕ) → All (λ x. x < bound) xs → 0 < bound → get_or xs i 0 < bound
get_or-below bound [] i h pos = pos
get_or-below bound (x ∷ xs) zero h pos = h.0
get_or-below bound (x ∷ xs) (suc i) h pos = get_or-below bound xs i h.1 pos

All-append :
    (bound : ℕ) (xs ys : List ℕ)
    → All (λ x. x < bound) xs
    → All (λ x. x < bound) ys
    → All (λ x. x < bound) (xs ++ ys)
All-append bound [] ys h k = k
All-append bound (x ∷ xs) ys h k = (h.0, All-append bound xs ys h.1 k)

range_from-below : (i n bound : ℕ) → i + n ≤ bound → All (λ x. x < bound) (range_from i n)
range_from-below i zero bound le = tt
range_from-below i (suc n) bound le =
    (ground arith, range_from-below (suc i) n bound (ground arith))

down_to_one-below : (n bound : ℕ) → n < bound → All (λ x. x < bound) (down_to_one n)
down_to_one-below zero bound le = tt
down_to_one-below (suc n) bound le = (le, down_to_one-below n bound (ground arith))

chase_order-below : (n : ℕ) → 0 < n → All (λ x. x < n) (chase_order n)
unfolding chase_order
chase_order-below n some_device = elim (Bool-cases (ltb 1 n)) [
  | inl many ↦ rw many (
      All-append n (range_from 0 n) (down_to_one (n - 2)) (range_from-below 0 n n (ground arith))
        (down_to_one-below (n - 2) n (ground arith)))
  | inr one ↦ rw one (some_device, tt)
]

-- Every step of the chase over at least one device switches exactly one of them on.
pub one_lamp : (n step : ℕ) → 0 < n → count_true (chase_writes n step) ≡ 1
unfolding chase_writes lit_at
one_lamp n step some_device =
    let order = chase_order n in
    let lit = get_or order (step % length order) 0 in
    ground (
      arith,
      count_from 0 n lit,
      get_or-below n order (step % length order) (chase_order-below n some_device) some_device,
    )
