-- ===== src/Heartbeat/Alerts.antt =====
-- When the heartbeat task raises its alerts.
use phone_app.Base.{
  ℕ, zero, suc, ◌+◌, ◌-◌, ◌*◌, ◌<◌, ◌≡◌, Bool, true, false, ◌&&◌, Option, none, some, List, [], ◌∷◌,
  arith, ltb, leb, if◌then◌else◌,
}
use phone_app.Heartbeat.{Device, Alert, offline, reconnected, on_up, on_down, tick, ticks}

abbrev pub count_offline : List Alert → ℕ
count_offline [] = 0
count_offline (offline ∷ rest) = suc (count_offline rest)
count_offline (reconnected ∷ rest) = count_offline rest

-- Runs that find the PLC down, one each minute: from minute `k` of the outage on, `n` of them.
abbrev pub each_minute : ℕ → ℕ → ℕ → List (ℕ × Option Bool)
each_minute since k zero = []
each_minute since k (suc n) = (since + 60 * k, some false) ∷ each_minute since (suc k) n

each_minute_alerts :
    (since k n : ℕ) (d : Device)
    → d.down_since ≡ some since
    → count_offline (ticks (each_minute since k n) d).0
      ≡ (if leb k 2 && ltb 2 (k + n) then 1 else 0)
unfolding ticks tick on_down
each_minute_alerts since k zero d h = ground arith
each_minute_alerts since k (suc n) d h = ground (arith, each_minute_alerts since (suc k) n d)

-- When the task runs once a minute and finds a PLC down that was up, an outage that it sees for more
-- than two minutes gives exactly one offline alert, however long it lasts, and a shorter one none.
pub one_offline_alert :
    (since n : ℕ) (d : Device)
    → d.down_since ≡ none
    → count_offline (ticks (each_minute since 0 (suc n)) d).0 ≡ (if ltb 1 n then 1 else 0)
unfolding ticks tick on_down
one_offline_alert since n d h =
    ground (arith, each_minute_alerts since 1 n (record d { down_since = some (since + 60 * 0) }))

-- The window for the offline alert is sixty seconds long. Runs that are less than a minute apart can
-- both fall into it and alert twice; runs that are more than a minute apart can miss it, and an
-- outage of more than three minutes then gives no offline alert.
pub jitter_alerts :
    (since gap : ℕ) (d : Device)
    → d.down_since ≡ some since
    → gap < 60
    → ((ticks ((since + 120, some false) ∷ (since + 120 + gap, some false) ∷ []) d).0
        ≡ offline ∷ offline ∷ [])
      × ((ticks ((since + 119, some false) ∷ (since + 180 + gap, some false) ∷ []) d).0 ≡ [])
unfolding ticks tick on_down
jitter_alerts since gap d h small = (ground arith, ground arith)

-- When the PLC answers again, the outage is closed, the time is noted as last seen, and exactly an
-- outage of two minutes or more is reported as over; a second such run reports nothing.
pub recovery_alert :
    (since now later : ℕ) (d : Device)
    → d.down_since ≡ some since
    → let (alerts, e) = ticks ((now, some true) ∷ (later, some true) ∷ []) d in
      (alerts ≡ (if leb 120 (now - since) then reconnected ∷ [] else []))
      × (e.down_since ≡ none)
      × (e.last_seen_at ≡ some later)
unfolding ticks tick on_up
recovery_alert since now later d h = ground arith
