-- ===== src/SuperScan.antt =====
-- find_device/superscan.py: the rows that a scan keeps, the pass that reads every known capability, and
-- the sweep after it. SuperScan.Active has the active tests.
pub mod Active
pub mod Deep
pub mod Presence
pub mod Objects
pub mod Mocked
pub mod Rows
pub mod Restoring
use phone_app.Base.{
  ℕ, zero, suc, ◌+◌, ◌-◌, ◌*◌, ◌≤◌, ◌<◌, ◌≡◌, ◌≢◌, ◌⊎◌, inl, inr, refl, sym, ap, ◌∙◌, Bool, true,
  false, not, ◌&&◌, ◌||◌, Option, none, some, List, [], ◌∷◌, ◌++◌, map, arith, tests, ltb, leb,
  ◌==◌, if◌then◌else◌, Bool-cases, Option-cases, Text, codes, eqb, length,
}
use phone_app.Base.{take, any, is_in}

pub data Direction : Type 0 where
  input output both : Direction

pub data TestStatus : Type 0 where
  not_tested observed tested_ok tested_failed unavailable : TestStatus

pub data Confidence : Type 0 where
  high low : Confidence

-- `DiscoveredCapability`, less its notes and times.
pub record Capability : Type 0 where
  pub device_type : Text
  pub identifier : Text
  pub apartment_device : Option ℕ
  pub name : Text
  pub room : Text
  pub direction : Direction
  pub is_known_type : Bool
  pub raw_var_name : Text
  pub data_type : Text
  pub valid_range : Text
  pub test_status : TestStatus
  pub confidence : Confidence
  pub physical_effect_confirmed : Bool
  pub can_safely_test : Bool
  pub last_value : Text
  pub last_seen_scan : ℕ
  pub still_present : Bool

-- One entry of `_known_capabilities`, with the name, the room and the database row of its object.
pub record Item : Type 0 where
  pub device_type : Text
  pub identifier : Text
  pub direction : Direction
  pub data_type : Text
  pub valid_range : Text
  pub name : Text
  pub room : Text
  pub apartment_device : Option ℕ
  pub obj : ℕ

-- `ACTIVE_TEST_TYPES` and `MAX_ACTIVE_TESTS_PER_RUN`
abbrev pub active_test_types : List Text
active_test_types =
    codes "dali" ∷ codes "relay" ∷ codes "curtain" ∷ codes "appliance" ∷ codes "toggle" ∷ []

abbrev pub max_active_tests_per_run : ℕ
max_active_tests_per_run = 60

abbrev pub is_output : Direction → Bool
is_output output = true
is_output input = false
is_output both = false

-- The condition on an item to be written to.
unfoldable pub is_testable : Item → Bool
is_testable it = is_output it.direction && is_in it.device_type active_test_types

unfoldable pub testable_items : List Item → List Item
unfolding is_testable
testable_items [] = []
testable_items (it ∷ its) =
    let rest = testable_items its in if is_testable it then it ∷ rest else rest

-- `writable`
unfoldable pub writable_items : List Item → List Item
writable_items known = take max_active_tests_per_run (testable_items known)

unfoldable pub has_key : Text → Text → Capability → Bool
has_key d i c = eqb c.device_type d && eqb c.identifier i

unfoldable pub find_row : Text → Text → List Capability → Option Capability
find_row d i [] = none
find_row d i (c ∷ cs) = if has_key d i c then some c else find_row d i cs

abbrev pub or_identifier : Text → Text → Text
or_identifier [] identifier = identifier
or_identifier (c ∷ name) identifier = c ∷ name

abbrev pub confidence_of : Option Text → Confidence
confidence_of none = low
confidence_of (some v) = high

abbrev pub value_or : Text → Option Text → Text
value_or old none = old
value_or old (some v) = v

abbrev pub observe : TestStatus → TestStatus
observe not_tested = observed
observe status = status

-- The row that `_upsert_capability` leaves, from an old test status, confirmation and value: a failed
-- read, `none`, never overwrites the value.
unfoldable pub touched : Item → ℕ → Option Text → TestStatus → Bool → Text → Capability
touched it run value status confirmed old = record {
  device_type = it.device_type;
  identifier = it.identifier;
  apartment_device = it.apartment_device;
  name = or_identifier it.name it.identifier;
  room = it.room;
  direction = it.direction;
  is_known_type = true;
  raw_var_name = [];
  data_type = it.data_type;
  valid_range = it.valid_range;
  test_status = observe status;
  confidence = confidence_of value;
  physical_effect_confirmed = confirmed;
  can_safely_test = is_testable it;
  last_value = value_or old value;
  last_seen_scan = run;
  still_present = true;
}

-- `_upsert_capability` on the apartment's rows.
unfoldable pub upsert_capability : Item → ℕ → Option Text → List Capability → List Capability
upsert_capability it run value [] = touched it run value not_tested false [] ∷ []
upsert_capability it run value (c ∷ cs) =
    if has_key it.device_type it.identifier c
    then touched it run value c.test_status c.physical_effect_confirmed c.last_value ∷ cs
    else c ∷ upsert_capability it run value cs

-- The first loop of `_run_scan`, where `read` is `_read_value` as text and `cancelled` the flag of the
-- run; `none` is `ScanCancelled`, which keeps the rows that were written.
unfoldable pub read_pass :
    {S : Type 0}
    → (S → Bool)
    → (ℕ → S → Option Text × S)
    → ℕ
    → List Item
    → List Capability
    → S
    → Bool × List Capability × S
read_pass cancelled read run [] rows s = (true, rows, s)
read_pass cancelled read run (it ∷ its) rows s =
    let (value, s1) = read it.obj s in
    let rest = read_pass cancelled read run its (upsert_capability it run value rows) s1 in
    if cancelled s then (false, rows, s) else rest

-- The end of `_run_scan`: what this run has not touched is not present any more.
unfoldable pub sweep : ℕ → List Capability → List Capability
sweep run [] = []
sweep run (c ∷ cs) =
    (if c.last_seen_scan == run then c else record c { still_present = false }) ∷ sweep run cs
