-- ===== src/SuperScan/Deep.antt =====
-- find_device/superscan.py: `_guess_direction`, `_deep_unknown_pass`, and the whole of `_run_scan`.
use phone_app.Base.{
  ℕ, ◌+◌, Bool, true, false, not, ◌&&◌, ◌||◌, Option, none, some, List, [], ◌∷◌, ◌++◌,
  if◌then◌else◌, Text, codes,
}
use phone_app.Base.{take, any, is_in, contains, lower}
use phone_app.SuperScan.{
  Direction, input, output, both, TestStatus, not_tested, Item, Capability, low, has_key, read_pass,
  sweep, writable_items,
}
use phone_app.SuperScan.Active.{Devices, Counts, no_counts, test_pass}

-- One entry of `cache.symbols_json`; a key that is missing reads as the empty text.
pub record Symbol : Type 0 where
  pub gvl : Text
  pub full_name : Text
  pub name : Text
  pub label : Text
  pub type_name : Text

-- `ScanRun.mode`
pub data Mode : Type 0 where
  passive quick full deep : Mode

-- `DEEP_SCAN_GVLS`
abbrev pub deep_scan_gvls : List Text
deep_scan_gvls =
    codes "gvlDALI"
    ∷ codes "gvlDALI_State"
    ∷ codes "gvlController"
    ∷ codes "gvlCurtain"
    ∷ codes "GVL"
    ∷ codes "GVL_DALI"
    ∷ codes "GVL_Relay"
    ∷ codes "GVL_Bilding"
    ∷ []

abbrev pub unknown_symbol : Text
unknown_symbol = codes "unknown_symbol"

-- `_guess_direction`
unfoldable pub guess_direction : Text → Direction
guess_direction name =
    let n = lower name in
    if any (contains n)
        (codes "cmd" ∷ codes "setlevel" ∷ codes "set_" ∷ codes "arm" ∷ codes "lockdown" ∷ [])
      && contains n (codes "set")
    then output
    else if any (contains n) (codes "cmd" ∷ codes "arm" ∷ codes "lockdown" ∷ [])
    then output
    else if any (contains n) (
        codes "state"
        ∷ codes "actual"
        ∷ codes "sensor"
        ∷ codes "switch"
        ∷ codes "status"
        ∷ codes "triggered"
        ∷ [])
    then input
    else both

-- `a or b`
abbrev pub or_name : Text → Text → Text
or_name [] b = b
or_name (c ∷ a) b = c ∷ a

abbrev pub is_empty : Text → Bool
is_empty [] = true
is_empty (c ∷ s) = false

abbrev pub identifier_of : Symbol → Text
identifier_of sym = take 100 sym.full_name

-- The row of an unknown symbol; a row that is there keeps its test status and its confirmation.
unfoldable pub unknown_row : Symbol → ℕ → TestStatus → Bool → Capability
unknown_row sym run status confirmed = record {
  device_type = unknown_symbol;
  identifier = identifier_of sym;
  apartment_device = none;
  name = take 150 (or_name sym.label (or_name sym.name sym.full_name));
  room = [];
  direction = guess_direction sym.name;
  is_known_type = false;
  raw_var_name = take 200 sym.full_name;
  data_type = take 40 sym.type_name;
  valid_range = [];
  test_status = status;
  confidence = low;
  physical_effect_confirmed = confirmed;
  can_safely_test = false;
  last_value = [];
  last_seen_scan = run;
  still_present = true;
}

-- `update_or_create` of the deep pass.
unfoldable pub upsert_unknown : Symbol → ℕ → List Capability → List Capability
upsert_unknown sym run [] = unknown_row sym run not_tested false ∷ []
upsert_unknown sym run (c ∷ cs) =
    if has_key unknown_symbol (identifier_of sym) c
    then unknown_row sym run c.test_status c.physical_effect_confirmed ∷ cs
    else c ∷ upsert_unknown sym run cs

-- What a scan asks of the rest of the program: the devices, `_read_value` as text, `_raw_var_names`,
-- `_refresh_discovery_cache`, whose `none` is also an apartment without a PLC row, and `check_cancel`,
-- which reads the flag of the run again.
pub record Scanner (S : Type 0) : Type 0 where
  pub devices : Devices S
  pub read_value : ℕ → S → Option Text × S
  pub raw_var_names : ℕ → List Text
  pub refresh_cache : S → Option (List Symbol) × S
  pub check_cancel : S → Bool × S

module _ {S : Type 0} (p : Scanner S) where
  -- `known_var_names` after the read pass.
  unfoldable pub known_names : List Item → List Text
  known_names [] = []
  known_names (it ∷ its) = p.raw_var_names it.obj ++ known_names its

  -- The loop over the symbols, with the count of the unknown ones; false means `ScanCancelled`.
  unfoldable pub unknown_each :
      ℕ → List Text → List Symbol → ℕ → List Capability → S → Bool × ℕ × List Capability × S
  unknown_each run names [] n rows s = (true, n, rows, s)
  unknown_each run names (sym ∷ syms) n rows s =
      let (cancelled, s1) = p.check_cancel s in
      let skip = unknown_each run names syms n rows s1 in
      let note = unknown_each run names syms (n + 1) (upsert_unknown sym run rows) s1 in
      if cancelled
      then (false, n, rows, s1)
      else if not (is_in sym.gvl deep_scan_gvls)
      then skip
      else if is_empty sym.full_name || is_in sym.full_name names
      then skip
      else note

  unfoldable pub unknown_found :
      ℕ → List Text → List Capability → Option (List Symbol) × S → Bool × ℕ × List Capability × S
  unfolding unknown_each
  unknown_found run names rows (none, s) = (true, 0, rows, s)
  unknown_found run names rows (some syms, s) = unknown_each run names syms 0 rows s

  -- `_deep_unknown_pass`
  unfoldable pub deep_unknown_pass :
      ℕ → List Text → List Capability → S → Bool × ℕ × List Capability × S
  deep_unknown_pass run names rows s = unknown_found run names rows (p.refresh_cache s)

  -- The two loops of `_run_scan`, the second one in an active mode only.
  unfoldable pub test_after :
      Mode → List Item → Bool × List Capability × S → Bool × Counts × List Capability × S
  test_after mode known (false, rows, s) = (false, no_counts, rows, s)
  test_after passive known (true, rows, s) = (true, no_counts, rows, s)
  test_after quick known (true, rows, s) = (true, no_counts, rows, s)
  test_after full known (true, rows, s) =
      test_pass p.devices (writable_items known) no_counts rows s
  test_after deep known (true, rows, s) =
      test_pass p.devices (writable_items known) no_counts rows s

  unfoldable pub read_and_test :
      Mode → ℕ → List Item → List Capability → S → Bool × Counts × List Capability × S
  read_and_test mode run known rows s =
      test_after mode known (read_pass p.devices.cancel_requested p.read_value run known rows s)

  unfoldable pub finish_scan : ℕ → Bool × ℕ × List Capability × S → Bool × List Capability × S
  finish_scan run (done, n, rows, s) = if done then (true, sweep run rows, s) else (false, rows, s)

  unfoldable pub scan_unknown :
      Mode → ℕ → List Item → Bool × Counts × List Capability × S → Bool × List Capability × S
  scan_unknown mode run known (false, n, rows, s) = (false, rows, s)
  scan_unknown passive run known (true, n, rows, s) = finish_scan run (true, 0, rows, s)
  scan_unknown quick run known (true, n, rows, s) = finish_scan run (true, 0, rows, s)
  scan_unknown full run known (true, n, rows, s) = finish_scan run (true, 0, rows, s)
  scan_unknown deep run known (true, n, rows, s) =
      finish_scan run (deep_unknown_pass run (known_names known) rows s)

  -- `_run_scan`; false means `ScanCancelled`, which keeps the rows that were written.
  unfoldable pub run_scan : Mode → ℕ → List Item → List Capability → S → Bool × List Capability × S
  run_scan mode run known rows s = scan_unknown mode run known (read_and_test mode run known rows s)
