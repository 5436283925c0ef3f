-- ===== src/Heartbeat.antt =====
-- find_device/tasks.py: `check_plc_heartbeat` for one apartment. Times are in seconds.
pub mod Alerts
use phone_app.Base.{
  ℕ, zero, suc, ◌+◌, ◌-◌, ◌*◌, ◌≤◌, ◌<◌, ◌≡◌, ◌≢◌, ◌⊎◌, inl, inr, refl, sym, ap, ◌∙◌, Bool, true,
  false, not, ◌&&◌, ◌||◌, Option, none, some, List, [], ◌∷◌, ◌++◌, map, arith, tests, ltb, leb,
  ◌==◌, if◌then◌else◌, Bool-cases, Option-cases, Text, codes, eqb, length,
}

-- The columns of PLCDevice that the task keeps.
pub record Device : Type 0 where
  pub down_since : Option ℕ
  pub last_seen_at : Option ℕ

pub data Alert : Type 0 where
  -- "PLC offline", "PLC reconnected"
  offline reconnected : Alert

-- `_OUTAGE_ALERT_THRESHOLD_S`
abbrev pub outage_alert_threshold : ℕ
outage_alert_threshold = 120

abbrev pub recovered : ℕ → ℕ → List Alert
recovered now since = if leb outage_alert_threshold (now - since) then reconnected ∷ [] else []

-- Reachable: the outage, if there was one, ends.
unfoldable pub on_up : ℕ → Option ℕ → List Alert × Device
on_up now none = ([], record { down_since = none; last_seen_at = some now })
on_up now (some since) =
    (recovered now since, record { down_since = none; last_seen_at = some now })

-- Unreachable: the outage begins, or goes on.
unfoldable pub on_down : ℕ → Option ℕ → Device → List Alert × Device
on_down now none d = ([], record d { down_since = some now })
on_down now (some since) d =
    let outage = now - since in
    (
      (if leb outage_alert_threshold outage && ltb outage (outage_alert_threshold + 60)
          then offline ∷ []
          else []),
      d,
    )

-- The body of the loop: `up` is `registry.connected or registry.modbus_connected`, and `none` where
-- asking for it raised, so that the apartment is passed over.
unfoldable pub tick : ℕ → Option Bool → Device → List Alert × Device
unfolding on_up on_down
tick now none d = ([], d)
tick now (some true) d = on_up now d.down_since
tick now (some false) d = on_down now d.down_since d

-- The alerts of a sequence of runs, each with its time.
unfoldable pub ticks : List (ℕ × Option Bool) → Device → List Alert × Device
ticks [] d = ([], d)
ticks ((now, up) ∷ rest) d =
    let (alerts, e) = tick now up d in let (more, f) = ticks rest e in (alerts ++ more, f)
