-- ===== src/Alarms/Silence.antt =====
-- The polls and the alarm checks together: which variables the polls write.
use phone_app.Base.{
  ℕ, ◌≡◌, refl, ap, ◌∙◌, Bool, true, false, Option, none, some, List, [], ◌∷◌, ◌++◌, arith, Text,
  codes, eqb,
}
use phone_app.Base.{get_at, get_at-put_at, insert, lookup-insert}
use phone_app.Ads.State.{Value, bool}
use phone_app.Realtime.{Entry, Cache, get_all, get, update, or_no_values, or_now}
use phone_app.Registry.Poll.{FullState}
use phone_app.Registry.Fallback.{Readings}
use phone_app.Alarms.{
  Device, co2, fire, sprinkler, intruder, Broker, Checked, check_one, check_thresholds,
  check_device, check_alarms,
}
use phone_app.Alarms.Polling.{
  two_digits, Published, pub_value, publish_readings, publish_state, poll_plc_state, number,
}

-- A poll writes no variable of this name, whatever the channel.
abbrev pub IsUnpolled : Text → Type 0
IsUnpolled name =
    (ch : ℕ)
    → (eqb (codes "gvlDALI.nPyChannel_" ++ two_digits ch) name ≡ false)
      × (eqb (codes "gvlIO.bPyRelay_" ++ two_digits ch) name ≡ false)
      × (eqb (codes "gvlIO.nPyCurtainPos_" ++ two_digits ch) name ≡ false)
      × (eqb (codes "gvlIO.bPyDoor_" ++ two_digits ch) name ≡ false)
      × (eqb (codes "gvlIO.bPyWindow_" ++ two_digits ch) name ≡ false)
      × (eqb (codes "gvlIO.bPyMotion_" ++ two_digits ch) name ≡ false)

get-update_ne :
    (d device : ℕ) (name var : Text) (v : Value) (ts : Option ℕ) (now : ℕ) (cache : Cache)
    → eqb var name ≡ false
    → get d name (update device var v ts now cache) ≡ get d name cache
unfolding get update get_all
get-update_ne d device name var v ts now cache ne =
    let entry : Entry = (v, or_now ts now) in
    let values = or_no_values (get_at device cache) in
    ground (
      arith,
      get_at-put_at device d (insert var entry values) cache,
      lookup-insert var name entry values,
    )

publish_readings-get :
    {A : Type 0} (d ts device : ℕ) (name prefix : Text) (of : A → Value) (readings : Readings A)
    → (s : Published) → ((ch : ℕ) → eqb (prefix ++ two_digits ch) name ≡ false)
    → get d name (publish_readings ts device prefix of readings s).0 ≡ get d name s.0
unfolding publish_readings pub_value
publish_readings-get d ts device name prefix of [] s ne = refl
publish_readings-get d ts device name prefix of ((ch, none) ∷ rest) s ne =
    publish_readings-get d ts device name prefix of rest s ne
publish_readings-get d ts device name prefix of ((ch, some v) ∷ rest) s ne =
    let var = prefix ++ two_digits ch in
    publish_readings-get d ts device name prefix of rest (pub_value ts device var (of v) s) ne
    ∙ get-update_ne d device name var (of v) (some ts) ts s.0 (ne ch)

publish_state-get :
    (d ts device : ℕ) (name : Text) (state : FullState) (s : Published)
    → IsUnpolled name
    → get d name (publish_state ts device state s).0 ≡ get d name s.0
unfolding publish_state
publish_state-get d ts device name state s0 h =
    let p1 = codes "gvlDALI.nPyChannel_" in
    let p2 = codes "gvlIO.bPyRelay_" in
    let p3 = codes "gvlIO.nPyCurtainPos_" in
    let p4 = codes "gvlIO.bPyDoor_" in
    let p5 = codes "gvlIO.bPyWindow_" in
    let p6 = codes "gvlIO.bPyMotion_" in
    let s1 = publish_readings ts device p1 number state.dali s0 in
    let s2 = publish_readings ts device p2 bool state.relays s1 in
    let s3 = publish_readings ts device p3 number state.singles.curtains s2 in
    let s4 = publish_readings ts device p4 bool state.singles.door_sensors s3 in
    let s5 = publish_readings ts device p5 bool state.singles.window_sensors s4 in
    publish_readings-get d ts device name p6 bool state.singles.motion_sensors s5 (λ ch. (h ch).5)
    ∙ publish_readings-get d ts device name p5 bool state.singles.window_sensors s4 (λ ch. (h ch).4)
    ∙ publish_readings-get d ts device name p4 bool state.singles.door_sensors s3 (λ ch. (h ch).3)
    ∙ publish_readings-get d ts device name p3 number state.singles.curtains s2 (λ ch. (h ch).2)
    ∙ publish_readings-get d ts device name p2 bool state.relays s1 (λ ch. (h ch).1)
    ∙ publish_readings-get d ts device name p1 number state.dali s0 (λ ch. (h ch).0)

poll_plc_state-get :
    (d ts : ℕ) (name : Text) (states : List (ℕ × Option FullState)) (s : Published)
    → IsUnpolled name
    → get d name (poll_plc_state ts states s).0 ≡ get d name s.0
unfolding poll_plc_state
poll_plc_state-get d ts name [] s h = refl
poll_plc_state-get d ts name ((device, none) ∷ rest) s h = poll_plc_state-get d ts name rest s h
poll_plc_state-get d ts name ((device, some state) ∷ rest) s h =
    poll_plc_state-get d ts name rest (publish_state ts device state s) h
    ∙ publish_state-get d ts device name state s h

-- The runs of the two tasks, in the order in which they happen.
pub data Run : Type 0 where
  poll : ℕ → List (ℕ × Option FullState) → Run
  check : ℕ → List Device → Run

module _ {W : Type 0} (broker : Broker W) where
  unfoldable pub run_tasks : List Run → Published → Checked W → Published × Checked W
  run_tasks [] p s = (p, s)
  run_tasks (poll ts states ∷ rest) p s = run_tasks rest (poll_plc_state ts states p) s
  run_tasks (check now devices ∷ rest) p s =
      run_tasks rest p (check_alarms broker now p.0 devices s).1

  -- No device has a value of a variable with a threshold.
  abbrev pub IsBlind : Cache → Type 0
  IsBlind cache =
      (d : ℕ)
      → (get d co2.var_name cache ≡ none)
        × (get d fire.var_name cache ≡ none)
        × (get d sprinkler.var_name cache ≡ none)
        × (get d intruder.var_name cache ≡ none)

  poll-IsBlind :
      (ts : ℕ) (states : List (ℕ × Option FullState)) (p : Published)
      → IsBlind p.0
      → IsBlind (poll_plc_state ts states p).0
  poll-IsBlind ts states p h d = (
    poll_plc_state-get d ts co2.var_name states p (λ ch. (refl, refl, refl, refl, refl, refl))
        ∙ (h d).0,
    poll_plc_state-get d ts fire.var_name states p (λ ch. (refl, refl, refl, refl, refl, refl))
        ∙ (h d).1,
    poll_plc_state-get d ts sprinkler.var_name states p (λ ch. (refl, refl, refl, refl, refl, refl))
        ∙ (h d).2,
    poll_plc_state-get d ts intruder.var_name states p (λ ch. (refl, refl, refl, refl, refl, refl))
        ∙ (h d).3,
  )

  check_device-blind :
      (now : ℕ) (cache : Cache) (active : Bool) (device : ℕ) (apartment : Option (ℕ × Text))
      → (s : Checked W) → IsBlind cache
      → check_device broker now cache active device apartment s ≡ (true, s)
  unfolding check_device check_thresholds check_one get
  check_device-blind now cache active device none s h = refl
  check_device-blind now cache true device (some apartment) s h =
      let none_of = h device in simp (none_of.0, none_of.1, none_of.2, none_of.3)
  check_device-blind now cache false device (some apartment) s h = refl

  check_alarms-blind :
      (now : ℕ) (cache : Cache) (devices : List Device) (s : Checked W)
      → IsBlind cache
      → check_alarms broker now cache devices s ≡ (true, s)
  unfolding check_alarms
  check_alarms-blind now cache [] s h = refl
  check_alarms-blind now cache (d ∷ ds) s h =
      rw (check_device-blind now cache d.is_active d.pk d.apartment s h)
        (check_alarms-blind now cache ds s h)

  -- No alarm is ever sent: the polls write no variable with a threshold. After any polls and checks,
  -- started with a cache that has none of those variables, what was sent is what had been sent before,
  -- and the broker was not used.
  pub polls_never_alarm :
      (runs : List Run) (p : Published) (s : Checked W) → IsBlind p.0 → (run_tasks runs p s).1 ≡ s
  unfolding run_tasks
  polls_never_alarm [] p s h = refl
  polls_never_alarm (poll ts states ∷ rest) p s h =
      polls_never_alarm rest (poll_plc_state ts states p) s (poll-IsBlind ts states p h)
  polls_never_alarm (check now devices ∷ rest) p s h =
      ap (λ r. (run_tasks rest p r.1).1) (check_alarms-blind now p.0 devices s h)
      ∙ polls_never_alarm rest p s h
