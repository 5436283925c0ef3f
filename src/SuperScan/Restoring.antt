-- ===== src/SuperScan/Restoring.antt =====
-- What an active test leaves on the device, and what the loop of tests counts.
use phone_app.SuperScan.Rows.{writable_items_safe}
use phone_app.Base.{
  Option, ℕ, ◌+◌, ◌≤◌, ◌≡◌, ◌⊎◌, refl, Bool, true, false, not, none, some, List, [], ◌∷◌, arith,
  leb, if◌then◌else◌, codes, length,
}
use phone_app.SuperScan.{Item, Capability, writable_items}
use phone_app.SuperScan.Active.{
  Devices, test_dali, test_relay, test_curtain, test_toggle, safe_active_test, Counts, no_counts,
  count_test, finish_test, test_item, test_pass, stop_command,
}

-- A read answers with what there is to see, and leaves it so.
abbrev pub IsRead : {S A : Type 0} → (S → Bool) → (S → A) → S → Option A × S → Type 0
IsRead ready seen s m = (m.0 ≡ some (seen s)) × (ready m.1 ≡ true) × (seen m.1 ≡ seen s)

-- A write is accepted, and seen when at least 300 ms have passed.
abbrev pub Settles :
    {S A : Type 0} → (S → Bool) → (S → A) → (ℕ → S → S) → A → Option {0} Unit × S → Type 0
Settles ready seen sleep v m =
    (m.0 ≡ some tt)
    × ((ms : ℕ) → 300 ≤ ms → (ready (sleep ms m.1) ≡ true) × (seen (sleep ms m.1) ≡ v))

-- Devices that do what they are told, within the ranges of their commands, as long as they are ready:
-- a level is a percentage, and a curtain command is stop, up or down.
pub record Obedient {S : Type 0} (p : Devices S) : Type 0 where
  pub is_ready : S → Bool
  pub level : ℕ → S → ℕ
  pub state : ℕ → S → Bool
  pub command : ℕ → S → ℕ
  pub level_law : (o : ℕ) (s : S) → level o s ≤ 100
  pub read_level_law :
      (o : ℕ) (s : S) → is_ready s ≡ true → IsRead is_ready (level o) s (p.read_level o s)
  pub read_state_law :
      (o : ℕ) (s : S) → is_ready s ≡ true → IsRead is_ready (state o) s (p.read_state o s)
  pub read_curtain_law :
      (o : ℕ) (s : S) → is_ready s ≡ true → IsRead is_ready (command o) s (p.read_curtain o s)
  pub set_brightness_law :
      (o v : ℕ) (s : S)
      → is_ready s ≡ true
      → v ≤ 100
      → Settles is_ready (level o) p.sleep v (p.set_brightness o v s)
  pub set_state_law :
      (o : ℕ) (b : Bool) (s : S)
      → is_ready s ≡ true
      → Settles is_ready (state o) p.sleep b (p.set_state o b s)
  pub set_command_law :
      (o v : ℕ) (s : S)
      → is_ready s ≡ true
      → v ≤ 2
      → Settles is_ready (command o) p.sleep v (p.set_command o v s)

module _ {S : Type 0} (p : Devices S) (q : Obedient p) where
  open q use {is_ready, level, state, command, level_law}
  open q use {read_level_law, read_state_law, read_curtain_law}
  open q use {set_brightness_law, set_state_law, set_command_law}

  abbrev flash_of : ℕ → ℕ
  flash_of n = if leb 70 n then 20 else 80

  flash_of-le : (n : ℕ) → flash_of n ≤ 100
  flash_of-le n = ground arith

  dali_restores :
      (o : ℕ) (s : S)
      → is_ready s ≡ true
      → let (r, after) = test_dali p o s in (r ≡ some true) × (level o after ≡ level o s)
  unfolding test_dali
  dali_restores o s ready =
      let flash = flash_of (level o s) in
      let first = read_level_law o s ready in
      let s1 = (p.read_level o s).1 in
      let flashed = set_brightness_law o flash s1 first.1 (flash_of-le (level o s)) in
      let s2 = p.sleep 1500 (p.set_brightness o flash s1).1 in
      let ready2 = (flashed.1 1500 (omega arith)).0 in
      let restored = set_brightness_law o (level o s) s2 ready2 (level_law o s) in
      let s3 = p.sleep 300 (p.set_brightness o (level o s) s2).1 in
      let done = restored.1 300 (ground arith) in
      ground (arith, first, flashed.0, restored.0, done, read_level_law o s3 done.0)

  relay_restores :
      (o : ℕ) (s : S)
      → is_ready s ≡ true
      → let (r, after) = test_relay p o s in (r ≡ some true) × (state o after ≡ state o s)
  unfolding test_relay
  relay_restores o s ready =
      let first = read_state_law o s ready in
      let s1 = (p.read_state o s).1 in
      let on = set_state_law o true s1 first.1 in
      let s2 = p.sleep 800 (p.set_state o true s1).1 in
      let lit = on.1 800 (ground arith) in
      let mid = read_state_law o s2 lit.0 in
      let s3 = (p.read_state o s2).1 in
      let restored = set_state_law o (state o s) s3 mid.1 in
      let s4 = p.sleep 300 (p.set_state o (state o s) s3).1 in
      let done = restored.1 300 (ground arith) in
      ground (arith, first, on.0, lit, mid, restored.0, done, read_state_law o s4 done.0)

  toggle_restores :
      (o : ℕ) (s : S)
      → is_ready s ≡ true
      → let (r, after) = test_toggle p o s in (r ≡ some true) × (state o after ≡ state o s)
  unfolding test_toggle
  toggle_restores o s ready =
      let first = read_state_law o s ready in
      let s1 = (p.read_state o s).1 in
      let flip = set_state_law o (not (state o s)) s1 first.1 in
      let s2 = p.sleep 500 (p.set_state o (not (state o s)) s1).1 in
      let other = flip.1 500 (ground arith) in
      let mid = read_state_law o s2 other.0 in
      let s3 = (p.read_state o s2).1 in
      let restored = set_state_law o (state o s) s3 mid.1 in
      let s4 = p.sleep 300 (p.set_state o (state o s) s3).1 in
      let done = restored.1 300 (ground arith) in
      ground (arith, first, flip.0, other, mid, restored.0, done, read_state_law o s4 done.0)

  curtain_stops :
      (o : ℕ) (s : S)
      → is_ready s ≡ true
      → let (r, after) = test_curtain p o s in (r ≡ some true) × (command o after ≡ stop_command)
  unfolding test_curtain
  curtain_stops o s ready =
      let first = read_curtain_law o s ready in
      let s1 = (p.read_curtain o s).1 in
      let moved = set_command_law o 1 s1 first.1 (ground arith) in
      let s2 = p.sleep 800 (p.set_command o 1 s1).1 in
      let stopped =
        set_command_law o stop_command s2 (moved.1 800 (ground arith)).0 (ground arith) in
      let s3 = p.sleep 300 (p.set_command o stop_command s2).1 in
      let done = stopped.1 300 (ground arith) in
      ground (arith, first, moved.0, stopped.0, done, read_curtain_law o s3 done.0)

  -- On devices that are ready and do what they are told within the ranges of their commands, seen at
  -- the latest after 300 ms, the active test of each allowed type succeeds and leaves the device as it
  -- found it; a curtain is left stopped.
  pub active_test_restores :
      (o : ℕ) (s : S)
      → is_ready s ≡ true
      → let dali = safe_active_test p (codes "dali") o s in
        let relay = safe_active_test p (codes "relay") o s in
        let appliance = safe_active_test p (codes "appliance") o s in
        let toggle = safe_active_test p (codes "toggle") o s in
        let curtain = safe_active_test p (codes "curtain") o s in
        ((dali.0 ≡ true) × (level o dali.1 ≡ level o s))
        × ((relay.0 ≡ true) × (state o relay.1 ≡ state o s))
        × ((appliance.0 ≡ true) × (state o appliance.1 ≡ state o s))
        × ((toggle.0 ≡ true) × (state o toggle.1 ≡ state o s))
        × ((curtain.0 ≡ true) × (command o curtain.1 ≡ stop_command))
  unfolding safe_active_test
  active_test_restores o s ready =
      let relay = relay_restores o s ready in
      ground
        (arith, dali_restores o s ready, relay, toggle_restores o s ready, curtain_stops o s ready)

module _ {S : Type 0} (p : Devices S) where
  -- When the reading after the first write of a relay's test fails, the test ends as failed in the
  -- state of that reading: the relay that was switched on is not switched back, whatever it was before.
  pub interrupted_test :
      (o : ℕ) (s s1 s2 : S) (was_on : Bool)
      → p.read_state o s ≡ (some was_on, s)
      → p.set_state o true s ≡ (some tt, s1)
      → p.read_state o (p.sleep 800 s1) ≡ (none, s2)
      → safe_active_test p (codes "relay") o s ≡ (false, s2)
  unfolding safe_active_test test_relay
  interrupted_test o s s1 s2 was_on first on lost = ground arith

  count_item :
      (it : Item) (n : Counts) (rows : List Capability) (s : S)
      → n.tested ≡ n.passed + n.failed
      → let m = (test_item p it n rows s).0 in
        (m.tested ≡ n.tested + 1) × (m.tested ≡ m.passed + m.failed)
  unfolding test_item finish_test count_test
  count_item it n rows s h = ground arith

  count_pass :
      (its : List Item) (n : Counts) (rows : List Capability) (s : S)
      → n.tested ≡ n.passed + n.failed
      → let (done, m, _, _) = test_pass p its n rows s in
        (m.tested ≡ m.passed + m.failed)
        × (m.tested ≤ n.tested + length its)
        × ((done ≡ false) ⊎ (m.tested ≡ n.tested + length its))
  unfolding test_pass
  count_pass [] n rows s h = ground arith
  count_pass (it ∷ its) n rows s h =
      let (n1, rows1, s1) = test_item p it n rows s in
      ground (arith, count_item it n rows s h, count_pass its n1 rows1 s1)

  -- A run tests at most sixty devices, each is counted once as passed or failed, and unless the
  -- run is cancelled all of the outputs chosen for it are counted.
  pub test_counts :
      (known : List Item) (rows : List Capability) (s : S)
      → let (done, n, _, _) = test_pass p (writable_items known) no_counts rows s in
        (n.tested ≡ n.passed + n.failed)
        × (n.tested ≤ 60)
        × ((done ≡ false) ⊎ (n.tested ≡ length (writable_items known)))
  test_counts known rows s =
      ground
        (arith, writable_items_safe known, count_pass (writable_items known) no_counts rows s refl)
