-- ===== src/SuperScan/Rows.antt =====
-- What a scan leaves in the rows of the capabilities.
use phone_app.Base.{
  All, ℕ, zero, suc, ◌≤◌, ◌≡◌, inl, inr, refl, Bool, true, false, ◌&&◌, ◌||◌, Option, none, some,
  List, [], ◌∷◌, arith, ◌==◌, if◌then◌else◌, Bool-cases, Text, eqb, length,
}
use phone_app.Base.{take, any, eqb_sound, eqb_refl, length-take-le}
use phone_app.SuperScan.{
  TestStatus, Item, Capability, is_testable, testable_items, writable_items, has_key, find_row,
  touched, upsert_capability, read_pass, sweep, not_tested,
}

abbrev pub value_of : Option Capability → Text
value_of none = []
value_of (some c) = c.last_value

abbrev pub status_of : Option Capability → TestStatus
status_of none = not_tested
status_of (some c) = c.test_status

abbrev pub confirmed_of : Option Capability → Bool
confirmed_of none = false
confirmed_of (some c) = c.physical_effect_confirmed

-- Noting a capability, whether or not its read has worked: its row is there afterwards, present, seen
-- by this run, with the new value or, after a failed read, the value it had before; and no row of
-- another capability is changed.
pub upsert_capability_lem :
    (it : Item) (run : ℕ) (v : Option Text) (rows : List Capability) (d i : Text)
    → let old = find_row it.device_type it.identifier rows in
      let row = touched it run v (status_of old) (confirmed_of old) (value_of old) in
      find_row d i (upsert_capability it run v rows)
      ≡ (if eqb it.device_type d && eqb it.identifier i then some row else find_row d i rows)
unfolding find_row upsert_capability has_key touched
upsert_capability_lem it run v [] d i = ground arith
upsert_capability_lem it run v (c ∷ cs) d i = ground (
  arith,
  upsert_capability_lem it run v cs d i,
  eqb_sound c.device_type d,
  eqb_sound c.identifier i,
  eqb_sound c.device_type it.device_type,
  eqb_sound c.identifier it.identifier,
  eqb_sound it.device_type d,
  eqb_sound it.identifier i,
  eqb_refl d,
  eqb_refl i,
)

abbrev pub is_present : Option Capability → Bool
is_present none = false
is_present (some c) = c.still_present

-- A row that the run has touched and that is present.
abbrev pub is_live : ℕ → Option Capability → Bool
is_live run none = false
is_live run (some c) = c.still_present && c.last_seen_scan == run

abbrev pub is_item : Text → Text → Item → Bool
is_item d i it = eqb it.device_type d && eqb it.identifier i

pub sweep-live :
    (run : ℕ) (rows : List Capability) (d i : Text)
    → is_present (find_row d i (sweep run rows)) ≡ is_live run (find_row d i rows)
unfolding find_row sweep has_key
sweep-live run [] d i = refl
sweep-live run (c ∷ cs) d i = ground (arith, sweep-live run cs d i)

upsert_capability-live :
    (it : Item) (run : ℕ) (v : Option Text) (rows : List Capability) (d i : Text)
    → is_live run (find_row d i (upsert_capability it run v rows))
      ≡ (is_item d i it || is_live run (find_row d i rows))
unfolding touched
upsert_capability-live it run v rows d i = ground (arith, upsert_capability_lem it run v rows d i)

pub read_pass-live :
    {S : Type 0} (cancelled : S → Bool) (read : ℕ → S → Option Text × S) (run : ℕ) (its : List Item)
    (rows : List Capability) (s : S) (d i : Text)
    → (read_pass cancelled read run its rows s).0 ≡ true
    → is_live run (find_row d i (read_pass cancelled read run its rows s).1)
      ≡ (any (is_item d i) its || is_live run (find_row d i rows))
unfolding read_pass
read_pass-live cancelled read run [] rows s d i done = refl
read_pass-live cancelled read run (it ∷ its) rows s d i done =
    let (v, s1) = read it.obj s in
    let next = upsert_capability it run v rows in
    ground (
      arith,
      read_pass-live cancelled read run its next s1 d i,
      upsert_capability-live it run v rows d i,
    )

testable_items-safe : (its : List Item) → All (λ it. is_testable it ≡ true) (testable_items its)
unfolding testable_items
testable_items-safe [] = tt
testable_items-safe (it ∷ its) = elim (Bool-cases (is_testable it)) [
  | inl fits ↦ rw fits (fits, testable_items-safe its)
  | inr other ↦ rw other (testable_items-safe its)
]

take-safe :
    (n : ℕ) (its : List Item)
    → All (λ it. is_testable it ≡ true) its
    → All (λ it. is_testable it ≡ true) (take n its)
take-safe zero its h = tt
take-safe (suc n) [] h = tt
take-safe (suc n) (it ∷ its) h = (h.0, take-safe n its h.1)

-- At most sixty devices of a run are written to, all of them outputs of the types that are
-- allowed.
pub writable_items_safe :
    (known : List Item)
    → (length (writable_items known) ≤ 60)
      × All (λ it. is_testable it ≡ true) (writable_items known)
unfolding writable_items
writable_items_safe known =
    let items = testable_items known in
    (length-take-le 60 items, take-safe 60 items (testable_items-safe known))
