-- ===== src/Alarms/Cooldown.antt =====
-- The cooldown of `check_alarms`: when the messages are sent, and what a broker that refuses one does.
use phone_app.Base.{
  ℕ, ◌+◌, ◌-◌, ◌≤◌, ◌≡◌, inl, inr, Bool, true, false, Option, none, some, List, [], ◌∷◌, arith, ltb,
  Bool-cases, Text,
}
use phone_app.Base.{lookup}
use phone_app.Realtime.{Entry, Cache, get_all}
use phone_app.Alarms.Spacing.{
  IsCooled, after_delay-IsCooled, sent_for, AreBefore, IsStamped, after_delay-IsStamped,
  refused-IsStamped,
}
use phone_app.Alarms.{
  Device, Threshold, alarm_thresholds, last_sent, Broker, Checked, notify, after_delay, check_one,
  check_thresholds, check_device, check_alarms,
}

module _ {W : Type 0} (broker : Broker W) where
  -- The messages of one run are sent one after the other, each after its cooldown.
  abbrev pub Keeps : (Checked W → Type 0) → ℕ → Type 0
  Keeps P now =
      (device : ℕ) (var : Text) (queued : Bool) (w : W) (s : Checked W)
      → last_sent device var s.last_notified + 300 ≤ now
      → P s
      → P (after_delay now device var queued w s)

  check_one-keeps :
      (P : Checked W → Type 0) (now device : ℕ) (apartment : ℕ × Text) (t : Threshold)
      → (entry : Option Entry) (s : Checked W) → Keeps P now
      → P s
      → P (check_one broker now device apartment t entry s).1
  unfolding check_one notify
  check_one-keeps P now device apartment t none s keep h = h
  check_one-keeps P now device apartment t (some entry) s keep h =
      elim (Bool-cases (t.predicate entry.0)) [
        | inr idle ↦ rw idle h
        | inl active ↦
            rw active
              (elim (Bool-cases (ltb (now - last_sent device t.var_name s.last_notified) 300)) [
                | inl soon ↦ rw soon h
                | inr due ↦ rw due (keep device t.var_name _ _ s (ground arith) h)
              ])
      ]

  check_thresholds-keeps :
      (P : Checked W → Type 0) (now device : ℕ) (apartment : ℕ × Text)
      → (snapshot : List (Text × Entry)) (ts : List Threshold) (s : Checked W) → Keeps P now
      → P s
      → P (check_thresholds broker now device apartment snapshot ts s).1
  unfolding check_thresholds
  check_thresholds-keeps P now device apartment snapshot [] s keep h = h
  check_thresholds-keeps P now device apartment snapshot (t ∷ ts) s keep h =
      let (ok, u) = check_one broker now device apartment t (lookup t.var_name snapshot) s in
      let one = check_one-keeps P now device apartment t (lookup t.var_name snapshot) s keep h in
      elim (Bool-cases ok) [
        | inl went ↦ rw went (check_thresholds-keeps P now device apartment snapshot ts u keep one)
        | inr raised ↦ rw raised one
      ]

  check_device-keeps :
      (P : Checked W → Type 0) (now : ℕ) (cache : Cache) (active : Bool) (device : ℕ)
      → (apartment : Option (ℕ × Text)) (s : Checked W) → Keeps P now
      → P s
      → P (check_device broker now cache active device apartment s).1
  unfolding check_device
  check_device-keeps P now cache active device none s keep h = h
  check_device-keeps P now cache true device (some apartment) s keep h =
      check_thresholds-keeps P now device apartment (get_all device cache) alarm_thresholds s keep h
  check_device-keeps P now cache false device (some apartment) s keep h = h

  check_alarms-keeps :
      (P : Checked W → Type 0) (now : ℕ) (cache : Cache) (devices : List Device) (s : Checked W)
      → Keeps P now
      → P s
      → P (check_alarms broker now cache devices s).1
  unfolding check_alarms
  check_alarms-keeps P now cache [] s keep h = h
  check_alarms-keeps P now cache (d ∷ ds) s keep h =
      let (ok, u) = check_device broker now cache d.is_active d.pk d.apartment s in
      let one = check_device-keeps P now cache d.is_active d.pk d.apartment s keep h in
      elim (Bool-cases ok) [
        | inl went ↦ rw went (check_alarms-keeps P now cache ds u keep one)
        | inr raised ↦ rw raised one
      ]

  -- Runs of the task in one worker process, each with its time, its cache and its devices.
  unfoldable pub check_runs : List (ℕ × Cache × List Device) → Checked W → Checked W
  check_runs [] s = s
  check_runs ((now, cache, devices) ∷ rest) s =
      check_runs rest (check_alarms broker now cache devices s).1

  -- Messages of one worker process for the same device and variable are 300 seconds apart, or more: whatever the caches and
  -- the devices of the runs, the times at which they are made, and the messages that the broker refuses.
  pub alarms_are_spaced :
      (runs : List (ℕ × Cache × List Device)) (s : Checked W)
      → IsCooled s
      → IsCooled (check_runs runs s)
  unfolding check_runs
  alarms_are_spaced [] s h = h
  alarms_are_spaced ((now, cache, devices) ∷ rest) s h =
      alarms_are_spaced rest (check_alarms broker now cache devices s).1
        (check_alarms-keeps IsCooled now cache devices s (after_delay-IsCooled now) h)

  check_runs-IsStamped :
      (device : ℕ) (var : Text) (time n : ℕ) (runs : List (ℕ × Cache × List Device)) (s : Checked W)
      → AreBefore (time + 300) runs
      → IsStamped device var time n s
      → IsStamped device var time n (check_runs runs s)
  unfolding check_runs AreBefore
  check_runs-IsStamped device var time n [] s early h = h
  check_runs-IsStamped device var time n ((now, cache, devices) ∷ rest) s early h =
      check_runs-IsStamped device var time n rest (check_alarms broker now cache devices s).1
        early.1
        (check_alarms-keeps (IsStamped device var time n) now cache devices s
          (λ d v queued w s' due h'.
            after_delay-IsStamped device var time n now d v queued w s' early.0 due h')
          h)

  -- A message that the broker refuses counts as sent for the cooldown: no run of the task in
  -- the same worker process in the next 300 seconds, a retry included, sends a message for that variable.
  pub refused_message_is_lost :
      (now device : ℕ) (apartment : ℕ × Text) (t : Threshold) (s : Checked W)
      → (runs : List (ℕ × Cache × List Device)) → (notify broker now device apartment t s).0 ≡ false
      → AreBefore (now + 300) runs
      → let u = (notify broker now device apartment t s).1 in
        sent_for device t.var_name (check_runs runs u).sent ≡ sent_for device t.var_name s.sent
  unfolding notify
  refused_message_is_lost now device apartment t s runs refused early =
      let u = (notify broker now device apartment t s).1 in
      let n = sent_for device t.var_name s.sent in
      let after = refused-IsStamped now device t.var_name _ _ s refused in
      (check_runs-IsStamped device t.var_name now n runs u early after).1
