-- ===== src/Tests/Alarms.antt =====
-- Runs of the alarm tasks.
use phone_app.Base.{
  ℕ, zero, suc, ◌≡◌, refl, Bool, true, false, none, some, List, [], ◌∷◌, arith, codes,
}
use phone_app.Ads.State.{bool}
use phone_app.EventBus.{new_bus}
use phone_app.Realtime.{Cache, get, get_all}
use phone_app.Registry.Poll.{FullState}
use phone_app.Alarms.{Device, Notification, fire, Broker, Checked, notify, last_sent, check_alarms}
use phone_app.Alarms.Polling.{Published}
use phone_app.Alarms.Silence.{Run, poll, check, run_tasks, polls_never_alarm}
use phone_app.Alarms.Cooldown.{check_runs, alarms_are_spaced, refused_message_is_lost}
use phone_app.Alarms.Spacing.{IsSpaced, IsRecorded, IsCooled, sent_for, AreBefore}

-- A broker that refuses the first messages and counts down, and then takes all.
unfoldable pub delay : Notification → ℕ → Bool × ℕ
delay n zero = (true, 0)
delay n (suc left) = (false, left)

abbrev broker : Broker ℕ
broker = record { delay = delay }

abbrev home : Device
home = record { pk = 4; is_active = true; apartment = some (7, codes "Loft") }

abbrev burning : Cache
burning = (4, (codes "gvlSafety.bPyFireAlarm", (bool true, 1000)) ∷ []) ∷ []

abbrev fresh : Checked ℕ
fresh = record { last_notified = []; sent = []; world = 0 }

abbrev runs : List (ℕ × Cache × List Device)
runs = (1000, burning, home ∷ []) ∷ (1200, burning, home ∷ []) ∷ (1300, burning, home ∷ []) ∷ []

two_alarms :
    (check_runs broker runs fresh).sent
    ≡ (4, codes "gvlSafety.bPyFireAlarm", 1300) ∷ (4, codes "gvlSafety.bPyFireAlarm", 1000) ∷ []
unfolding check_runs delay check_alarms get_all last_sent
two_alarms = refl

alarms_are_spaced_example : IsCooled (check_runs broker runs fresh)
unfolding IsSpaced IsRecorded
alarms_are_spaced_example = alarms_are_spaced broker runs fresh (tt, tt)

-- The first message is refused.
abbrev refusing : Checked ℕ
refusing = record fresh { world = 1 }

refused_message_is_lost_example :
    let u = (notify broker 1000 4 (7, codes "Loft") fire refusing).1 in
    sent_for 4 fire.var_name
      (check_runs broker ((1010, burning, home ∷ []) ∷ (1299, burning, home ∷ []) ∷ []) u).sent
    ≡ sent_for 4 fire.var_name refusing.sent
unfolding notify delay AreBefore
refused_message_is_lost_example =
    refused_message_is_lost broker 1000 4 (7, codes "Loft") fire refusing
      ((1010, burning, home ∷ []) ∷ (1299, burning, home ∷ []) ∷ []) refl (omega arith)

abbrev lit : FullState
lit = record {
  mock = false;
  apartment_id = 7;
  plc_connected = true;
  modbus_connected = false;
  dali = (1, some 80) ∷ (2, none) ∷ [];
  relays = (3, some true) ∷ [];
  singles = record {
    curtains = (1, some 0) ∷ [];
    switches = [];
    door_sensors = (1, some true) ∷ [];
    window_sensors = [];
    motion_sensors = [];
    appliances = [];
    toggles = [];
    named_switches = [];
    custom = [];
  };
  security = none;
}

abbrev task_runs : List Run
task_runs = poll 1000 ((4, some lit) ∷ (5, none) ∷ []) ∷ check 1001 (home ∷ []) ∷ []

abbrev nothing_published : Published
nothing_published = ([], new_bus)

polls_never_alarm_example : (run_tasks broker task_runs nothing_published fresh).1 ≡ fresh
unfolding get get_all
polls_never_alarm_example =
    polls_never_alarm broker task_runs nothing_published fresh (λ d. (refl, refl, refl, refl))
