-- ===== src/SuperScan/Active.antt =====
-- find_device/superscan.py: `_safe_active_test` and the second loop of `_run_scan`. Times are in
-- milliseconds.
use phone_app.Base.{
  ℕ, ◌+◌, Bool, true, false, not, ◌&&◌, Option, none, some, List, [], ◌∷◌, leb, ◌==◌, if◌then◌else◌,
  Text, codes, eqb,
}
use phone_app.Base.{eqb}
use phone_app.SuperScan.{
  Item, Capability, TestStatus, tested_ok, tested_failed, unavailable, has_key,
}

-- The device objects of the registry over a state `S`; `none` stands for an exception.
pub record Devices (S : Type 0) : Type 0 where
  pub read_level : ℕ → S → Option ℕ × S
  pub set_brightness : ℕ → ℕ → S → Option {0} Unit × S
  pub read_state : ℕ → S → Option Bool × S
  pub set_state : ℕ → Bool → S → Option {0} Unit × S
  pub read_curtain : ℕ → S → Option ℕ × S
  pub set_command : ℕ → ℕ → S → Option {0} Unit × S
  pub sleep : ℕ → S → S
  -- `registry.connected` and the flag `cancel_requested` of the run.
  pub connected : S → Bool
  pub cancel_requested : S → Bool

-- A `try` body: an exception leaves the state as far as it was written.
abbrev pub Try : Type 0 → Type 0 → Type 0
Try S A = S → Option A × S

infixl 5 ◌>>=◌ ◌>>◌
abbrev pub ◌>>=◌ : {S A B : Type 0} → Try S A → (A → Try S B) → Try S B
◌>>=◌ m f s = let (r, s1) = m s in elim r [ none ↦ (none, s1) | some a ↦ f a s1 ]

abbrev pub ◌>>◌ : {S A B : Type 0} → Try S A → Try S B → Try S B
m >> k = m >>= λ _. k

abbrev pub pure : {S A : Type 0} → A → Try S A
pure a s = (some a, s)

-- `CurtainMotor.STOP` and `CurtainMotor.UP`
abbrev pub stop_command : ℕ
stop_command = 0

abbrev pub up_command : ℕ
up_command = 1

module _ {S : Type 0} (p : Devices S) where
  abbrev pub wait : ℕ → Try S Unit
  wait ms s = (some tt, p.sleep ms s)

  -- The branch "dali": flash to a level that differs, and back.
  unfoldable pub test_dali : ℕ → Try S Bool
  test_dali o = do
    original ← p.read_level o
    p.set_brightness o (if leb 70 original then 20 else 80)
    wait 1500
    p.set_brightness o original
    wait 300
    after ← p.read_level o
    pure (after == original)

  abbrev pub eq_bool : Bool → Bool → Bool
  eq_bool true b = b
  eq_bool false b = not b

  -- The branches "relay" and "appliance".
  unfoldable pub test_relay : ℕ → Try S Bool
  test_relay o = do
    original ← p.read_state o
    p.set_state o true
    wait 800
    mid ← p.read_state o
    p.set_state o original
    wait 300
    after ← p.read_state o
    pure (mid && eq_bool after original)

  unfoldable pub test_curtain : ℕ → Try S Bool
  test_curtain o = do
    original ← p.read_curtain o
    p.set_command o up_command
    wait 800
    p.set_command o stop_command
    wait 300
    after ← p.read_curtain o
    pure (after == stop_command)

  unfoldable pub test_toggle : ℕ → Try S Bool
  test_toggle o = do
    original ← p.read_state o
    p.set_state o (not original)
    wait 500
    mid ← p.read_state o
    p.set_state o original
    wait 300
    after ← p.read_state o
    pure (eq_bool mid (not original) && eq_bool after original)

  abbrev pub succeeded : Option Bool → Bool
  succeeded none = false
  succeeded (some b) = b

  abbrev pub outcome : Option Bool × S → Bool × S
  outcome (r, s) = (succeeded r, s)

  -- `_safe_active_test`: an exception counts as a failure, and nothing more is written.
  unfoldable pub safe_active_test : Text → ℕ → S → Bool × S
  safe_active_test type o s =
      if eqb type (codes "dali")
      then outcome (test_dali o s)
      else if eqb type (codes "relay")
      then outcome (test_relay o s)
      else if eqb type (codes "curtain")
      then outcome (test_curtain o s)
      else if eqb type (codes "appliance")
      then outcome (test_relay o s)
      else if eqb type (codes "toggle")
      then outcome (test_toggle o s)
      else (false, s)

-- The status of a row after its test; only a passed test confirms the physical effect.
unfoldable pub save_status : Item → TestStatus → List Capability → List Capability
save_status it status [] = []
save_status it status (c ∷ cs) =
    if has_key it.device_type it.identifier c
    then record c { test_status = status } ∷ cs
    else c ∷ save_status it status cs

unfoldable pub confirm : Item → List Capability → List Capability
confirm it [] = []
confirm it (c ∷ cs) =
    if has_key it.device_type it.identifier c
    then record c { test_status = tested_ok; physical_effect_confirmed = true } ∷ cs
    else c ∷ confirm it cs

-- `tested`, `passed` and `failed`
pub record Counts : Type 0 where
  pub tested : ℕ
  pub passed : ℕ
  pub failed : ℕ

abbrev pub no_counts : Counts
no_counts = record { tested = 0; passed = 0; failed = 0 }

unfoldable pub count_test : Bool → Counts → Counts
count_test true n = record n { tested = n.tested + 1; passed = n.passed + 1 }
count_test false n = record n { tested = n.tested + 1; failed = n.failed + 1 }

module _ {S : Type 0} (p : Devices S) where
  -- The rows after a test that ended with `success` in the state `s`.
  unfoldable pub save_test : Item → Bool → S → List Capability → List Capability
  save_test it success s rows =
      if success
      then confirm it rows
      else if p.connected s
      then save_status it tested_failed rows
      else save_status it unavailable rows

  unfoldable pub finish_test :
      Item → Counts → List Capability → Bool × S → Counts × List Capability × S
  finish_test it n rows (success, s) =
      (count_test success n, save_test it success s rows, p.sleep 300 s)

  -- One trip of the loop: without a connection the device is not asked.
  unfoldable pub test_item : Item → Counts → List Capability → S → Counts × List Capability × S
  test_item it n rows s =
      if p.connected s
      then finish_test it n rows (safe_active_test p it.device_type it.obj s)
      else (count_test false n, save_status it unavailable rows, s)

  -- The second loop of `_run_scan`; false means `ScanCancelled`.
  unfoldable pub test_pass :
      List Item → Counts → List Capability → S → Bool × Counts × List Capability × S
  test_pass [] n rows s = (true, n, rows, s)
  test_pass (it ∷ its) n rows s =
      let (n1, rows1, s1) = test_item it n rows s in
      let rest = test_pass its n1 rows1 s1 in
      if p.cancel_requested s then (false, n, rows, s) else rest
