-- ===== src/Alarms.antt =====
-- find_device/tasks.py: `poll_plc_state`, which writes what the registries read to the cache and the
-- event bus, and `check_alarms`, which reads the cache. Times are in seconds.
pub mod Polling
pub mod Silence
pub mod Spacing
pub mod Cooldown
use phone_app.Base.{
  ℕ, zero, suc, ◌+◌, ◌-◌, ◌*◌, ◌≤◌, ◌<◌, ◌≡◌, ◌≢◌, ◌⊎◌, inl, inr, refl, sym, ap, ◌∙◌, Bool, true,
  false, not, ◌&&◌, ◌||◌, Option, none, some, List, [], ◌∷◌, ◌++◌, map, arith, tests, ltb, leb,
  ◌==◌, if◌then◌else◌, Bool-cases, Option-cases, Text, codes, eqb, length,
}
use phone_app.Base.{lookup, any}
use phone_app.Base.Int.{ℤ, pos, negsuc}
use phone_app.Ads.State.{Value, bool, num}
use phone_app.Realtime.{Entry, Cache, get_all}

-- The columns of PLCDevice that the task uses, with its apartment and the apartment's name.
pub record Device : Type 0 where
  pub pk : ℕ
  pub is_active : Bool
  pub apartment : Option (ℕ × Text)

-- The arguments of `send_notification.delay`: the apartment, the title and the body.
pub record Notification : Type 0 where
  pub apartment_id : ℕ
  pub title : Text
  pub body : Text

-- `v > 1500`
abbrev pub is_above_1500 : Value → Bool
is_above_1500 (bool b) = false
is_above_1500 (num (pos n)) = ltb 1500 n
is_above_1500 (num (negsuc n)) = false

-- `v is True`
abbrev pub is_true : Value → Bool
is_true (bool b) = b
is_true (num n) = false

pub record Threshold : Type 0 where
  pub var_name : Text
  pub label : Text
  pub predicate : Value → Bool

-- `_ALARM_THRESHOLDS`
abbrev pub co2 : Threshold
co2 = record {
  var_name = codes "gvlSafety.nPyCO2Level";
  label = codes "CO2 Level";
  predicate = is_above_1500;
}

abbrev pub fire : Threshold
fire = record {
  var_name = codes "gvlSafety.bPyFireAlarm";
  label = codes "Fire Alarm";
  predicate = is_true;
}

abbrev pub sprinkler : Threshold
sprinkler = record {
  var_name = codes "gvlSafety.bPySprinklerActive";
  label = codes "Sprinkler Active";
  predicate = is_true;
}

abbrev pub intruder : Threshold
intruder = record {
  var_name = codes "gvlIO.bPyAlarmTriggered";
  label = codes "Intruder Alarm";
  predicate = is_true;
}

abbrev pub alarm_thresholds : List Threshold
alarm_thresholds = co2 ∷ fire ∷ sprinkler ∷ intruder ∷ []

-- `_ALARM_COOLDOWN_S`
abbrev pub alarm_cooldown : ℕ
alarm_cooldown = 300

-- `_alarm_last_notified`, of one worker process: it is a module's dict.
abbrev pub LastNotified : Type 0
LastNotified = List ((ℕ × Text) × ℕ)

unfoldable pub last_sent : ℕ → Text → LastNotified → ℕ
last_sent device var [] = 0
last_sent device var (((d, v), time) ∷ rest) =
    if d == device && eqb v var then time else last_sent device var rest

-- The broker: whether `delay` returns, or raises.
pub record Broker (W : Type 0) : Type 0 where
  pub delay : Notification → W → Bool × W

-- What `check_alarms` works on.
pub record Checked (W : Type 0) : Type 0 where
  pub last_notified : LastNotified
  pub sent : List (ℕ × Text × ℕ)
  pub world : W

-- The time is written before the message is queued. `sent` records the messages that were queued, the
-- newest first.
unfoldable pub after_delay : {W : Type 0} → ℕ → ℕ → Text → Bool → W → Checked W → Checked W
after_delay now device var true w s = record {
  last_notified = ((device, var), now) ∷ s.last_notified;
  sent = (device, var, now) ∷ s.sent;
  world = w;
}
after_delay now device var false w s = record s {
  last_notified = ((device, var), now) ∷ s.last_notified;
  world = w;
}

module _ {W : Type 0} (broker : Broker W) where
  -- The message, whose priority is always high, for a device with an apartment; `false` is an exception.
  unfoldable pub notify : ℕ → ℕ → ℕ × Text → Threshold → Checked W → Bool × Checked W
  unfolding after_delay
  notify now device (apartment, name) t s =
      let (queued, w) =
        broker.delay
          (record {
            apartment_id = apartment;
            title = codes "Alert: " ++ t.label;
            body = t.label ++ (codes " detected in " ++ name);
          })
          s.world in
      (queued, after_delay now device t.var_name queued w s)

  -- The body of the inner loop.
  unfoldable pub check_one :
      ℕ → ℕ → ℕ × Text → Threshold → Option Entry → Checked W → Bool × Checked W
  unfolding notify
  check_one now device apartment t none s = (true, s)
  check_one now device apartment t (some entry) s =
      if t.predicate entry.0
      then if ltb (now - last_sent device t.var_name s.last_notified) alarm_cooldown
        then (true, s)
        else notify now device apartment t s
      else (true, s)

  -- The loop over the thresholds; an exception leaves it and the loop around it.
  unfoldable pub check_thresholds :
      ℕ → ℕ → ℕ × Text → List (Text × Entry) → List Threshold → Checked W → Bool × Checked W
  unfolding check_one
  check_thresholds now device apartment snapshot [] s = (true, s)
  check_thresholds now device apartment snapshot (t ∷ ts) s =
      let (ok, u) = check_one now device apartment t (lookup t.var_name snapshot) s in
      let rest = check_thresholds now device apartment snapshot ts u in
      if ok then rest else (false, u)

  unfoldable pub check_device :
      ℕ → Cache → Bool → ℕ → Option (ℕ × Text) → Checked W → Bool × Checked W
  unfolding check_thresholds
  check_device now cache active device none s = (true, s)
  check_device now cache active device (some apartment) s =
      if active
      then check_thresholds now device apartment (get_all device cache) alarm_thresholds s
      else (true, s)

  -- `check_alarms`; `false` is an exception, after which the task is tried again.
  unfoldable pub check_alarms : ℕ → Cache → List Device → Checked W → Bool × Checked W
  unfolding check_device
  check_alarms now cache [] s = (true, s)
  check_alarms now cache (d ∷ ds) s =
      let (ok, u) = check_device now cache d.is_active d.pk d.apartment s in
      let rest = check_alarms now cache ds u in if ok then rest else (false, u)
