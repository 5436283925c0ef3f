-- ===== src/Alarms/Spacing.antt =====
-- The spacing of the messages, and the stamps of the variables, across one message.
use phone_app.Base.{
  ℕ, ◌+◌, ◌≤◌, ◌<◌, ◌≡◌, refl, Bool, true, false, ◌&&◌, List, [], ◌∷◌, arith, ◌==◌, if◌then◌else◌,
  Text, eqb,
}
use phone_app.Base.{eqb_sound, eqb_refl}
use phone_app.Realtime.{Cache}
use phone_app.Alarms.{Device, LastNotified, last_sent, Checked, after_delay}

-- `time` of each message that was sent for the same variable is 300 seconds before `now`, or more.
unfoldable pub IsAfterAll : ℕ → Text → ℕ → List (ℕ × Text × ℕ) → Type 0
IsAfterAll device var now [] = Unit {0}
IsAfterAll device var now ((d, v, time) ∷ rest) =
    ((if d == device && eqb v var then time + 300 else 0) ≤ now) × IsAfterAll device var now rest

unfoldable pub IsSpaced : List (ℕ × Text × ℕ) → Type 0
IsSpaced [] = Unit {0}
IsSpaced ((device, var, time) ∷ rest) = IsAfterAll device var time rest × IsSpaced rest

-- No message is later than the time that is kept for its variable.
unfoldable pub IsRecorded : LastNotified → List (ℕ × Text × ℕ) → Type 0
IsRecorded last [] = Unit {0}
IsRecorded last ((device, var, time) ∷ rest) =
    (time ≤ last_sent device var last) × IsRecorded last rest

stamped :
    (device : ℕ) (var : Text) (now : ℕ) (last : LastNotified)
    → now ≤ last_sent device var (((device, var), now) ∷ last)
unfolding last_sent
stamped device var now last = ground (arith, eqb_refl var)

recorded-IsAfterAll :
    (device : ℕ) (var : Text) (now : ℕ) (last : LastNotified) (sent : List (ℕ × Text × ℕ))
    → last_sent device var last + 300 ≤ now
    → IsRecorded last sent
    → IsAfterAll device var now sent
unfolding IsAfterAll IsRecorded
recorded-IsAfterAll device var now last [] due h = tt
recorded-IsAfterAll device var now last ((d, v, time) ∷ rest) due h =
    (ground (arith, eqb_sound v var), recorded-IsAfterAll device var now last rest due h.1)

IsRecorded-later :
    (device : ℕ) (var : Text) (now : ℕ) (last : LastNotified) (sent : List (ℕ × Text × ℕ))
    → last_sent device var last ≤ now
    → IsRecorded last sent
    → IsRecorded (((device, var), now) ∷ last) sent
unfolding IsRecorded last_sent
IsRecorded-later device var now last [] due h = tt
IsRecorded-later device var now last ((d, v, time) ∷ rest) due h =
    (ground (arith, eqb_sound var v), IsRecorded-later device var now last rest due h.1)

-- How many messages were sent for a variable of a device.
unfoldable pub sent_for : ℕ → Text → List (ℕ × Text × ℕ) → ℕ
sent_for device var [] = 0
sent_for device var ((d, v, time) ∷ rest) =
    (if d == device && eqb v var then 1 else 0) + sent_for device var rest

-- The times of the runs are before a time.
unfoldable pub AreBefore : ℕ → List (ℕ × Cache × List Device) → Type 0
AreBefore time [] = Unit {0}
AreBefore time ((now, cache, devices) ∷ rest) = (now < time) × AreBefore time rest

module _ {W : Type 0} where
  abbrev pub IsCooled : Checked W → Type 0
  IsCooled s = IsSpaced s.sent × IsRecorded s.last_notified s.sent

  pub after_delay-IsCooled :
      (now device : ℕ) (var : Text) (queued : Bool) (w : W) (s : Checked W)
      → last_sent device var s.last_notified + 300 ≤ now
      → IsCooled s
      → IsCooled (after_delay now device var queued w s)
  unfolding after_delay IsSpaced IsRecorded
  after_delay-IsCooled now device var true w s due h = (
    (recorded-IsAfterAll device var now s.last_notified s.sent due h.1, h.0),
    (
      stamped device var now s.last_notified,
      IsRecorded-later device var now s.last_notified s.sent (omega arith) h.1,
    ),
  )
  after_delay-IsCooled now device var false w s due h =
      (h.0, IsRecorded-later device var now s.last_notified s.sent (omega arith) h.1)

  -- The variable was stamped at `time`, and so many messages were sent for it.
  abbrev pub IsStamped : ℕ → Text → ℕ → ℕ → Checked W → Type 0
  IsStamped device var time n s =
      (time ≤ last_sent device var s.last_notified) × (sent_for device var s.sent ≡ n)

  pub after_delay-IsStamped :
      (device : ℕ) (var : Text) (time n now d : ℕ) (v : Text) (queued : Bool) (w : W)
      (s : Checked W)
      → now < time + 300
      → last_sent d v s.last_notified + 300 ≤ now
      → IsStamped device var time n s
      → IsStamped device var time n (after_delay now d v queued w s)
  unfolding after_delay last_sent sent_for
  after_delay-IsStamped device var time n now d v true w s soon due h =
      ground (arith, eqb_sound v var)
  after_delay-IsStamped device var time n now d v false w s soon due h =
      ground (arith, eqb_sound v var)

  pub refused-IsStamped :
      (now device : ℕ) (var : Text) (queued : Bool) (w : W) (s : Checked W)
      → queued ≡ false
      → IsStamped device var now
          (sent_for device var s.sent)
          (after_delay now device var queued w s)
  unfolding after_delay
  refused-IsStamped now device var true w s h = cc
  refused-IsStamped now device var false w s h = (stamped device var now s.last_notified, refl)
