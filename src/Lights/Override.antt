-- ===== src/Lights/Override.antt =====
-- find_device/tasks.py: `apply_sunset_sunrise_overrides_once`.
use phone_app.Base.{
  is_some, ℕ, ◌≡◌, refl, ap, ◌∙◌, Bool, true, ◌||◌, Option, none, some, List, [], ◌∷◌, arith, ◌==◌,
  if◌then◌else◌,
}
use phone_app.Base.{any, false, ◌<◌, All, ltb}
use phone_app.Lights.{lights_should_be_on}
use phone_app.Lights.Sunset.{after_start, lights_should_be_on_lem}

-- The columns of an apartment that the task asks for.
pub record Apartment : Type 0 where
  pub pk : ℕ
  pub auto_sunset_sunrise : Bool
  pub sunset_override_time : Option ℕ
  pub sunrise_override_time : Option ℕ
  pub christmas_mode_active : Bool

-- `DeviceRegistry.for_apartment(pk).all_templated()` and `write` of a device; `none` is an exception.
pub record Outputs (S : Type 0) : Type 0 where
  pub all_templated : ℕ → S → Option (List ℕ) × S
  pub write : ℕ → Bool → S → Option {0} Unit × S

-- The filter of the query and `want_on`; `none` where the task leaves the apartment alone.
abbrev pub want_between : ℕ → Option ℕ → Option ℕ → Option Bool
want_between now (some sunset) (some sunrise) = some (lights_should_be_on now sunset sunrise)
want_between now (some sunset) none = none
want_between now none sunrise = none

unfoldable pub want_on : ℕ → Apartment → Option Bool
want_on now apt =
    if apt.auto_sunset_sunrise || apt.christmas_mode_active
    then none
    else want_between now apt.sunset_override_time apt.sunrise_override_time

module _ {S : Type 0} (p : Outputs S) where
  -- The inner loop: the first exception ends it.
  unfoldable pub write_each : List ℕ → Bool → S → S
  write_each [] on s = s
  write_each (o ∷ os) on s =
      let (r, s1) = p.write o on s in
      let rest = write_each os on s1 in if is_some r then rest else s1

  unfoldable pub write_all : Bool → Option (List ℕ) × S → S
  write_all on (none, s) = s
  write_all on (some os, s) = write_each os on s

  unfoldable pub override_one : Option Bool → ℕ → S → S
  override_one none pk s = s
  override_one (some on) pk s = write_all on (p.all_templated pk s)

  -- `apply_sunset_sunrise_overrides_once`: an apartment that fails does not stop the next.
  unfoldable pub apply_overrides : ℕ → List Apartment → S → S
  apply_overrides now [] s = s
  apply_overrides now (apt ∷ apts) s =
      apply_overrides now apts (override_one (want_on now apt) apt.pk s)

-- Outputs that accept every write and keep what is written, in apartments with given devices.
pub record Accepting {S : Type 0} (p : Outputs S) : Type 0 where
  pub devices : ℕ → List ℕ
  pub is_lit : S → ℕ → Bool
  pub all_templated_law : (pk : ℕ) (s : S) → p.all_templated pk s ≡ (some (devices pk), s)
  pub write_law :
      (o u : ℕ) (on : Bool) (s : S)
      → (is_some (p.write o on s).0 ≡ true)
        × (is_lit (p.write o on s).1 u ≡ (if o == u then on else is_lit s u))

abbrev pub or_before : Bool → Option Bool → Bool
or_before before none = before
or_before before (some on) = on

-- What an apartment asks for by the documentation of the task: it has no automatic mode and no Christmas
-- show, both times are set, and going round the clock from sunset, the present comes before sunrise.
abbrev pub asked_by : ℕ → ℕ → Bool → Bool → Option ℕ → Option ℕ → Option Bool
asked_by day now true show sunset sunrise = none
asked_by day now false true sunset sunrise = none
asked_by day now false false none sunrise = none
asked_by day now false false (some sunset) none = none
asked_by day now false false (some sunset) (some sunrise) =
    some (ltb (after_start day sunset now) (after_start day sunset sunrise))

abbrev pub asked : ℕ → ℕ → Apartment → Option Bool
asked day now apt =
    asked_by day now apt.auto_sunset_sunrise apt.christmas_mode_active apt.sunset_override_time
      apt.sunrise_override_time

abbrev pub IsTime : ℕ → Option ℕ → Type 0
IsTime day none = Unit
IsTime day (some t) = t < day

-- Both times, where they are set, are times of one day.
abbrev pub IsOfDay : ℕ → Apartment → Type 0
IsOfDay day apt = IsTime day apt.sunset_override_time × IsTime day apt.sunrise_override_time

-- What the overrides ask of one output: the last apartment that has it and asks for anything.
abbrev pub wanted : (ℕ → List ℕ) → ℕ → ℕ → ℕ → List Apartment → Bool → Bool
wanted devices day now u [] before = before
wanted devices day now u (apt ∷ apts) before =
    wanted devices day now u apts
      (if any (λ o. o == u) (devices apt.pk) then or_before before (asked day now apt) else before)

want_between-asked :
    (day now : ℕ) (auto show : Bool) (sunset sunrise : Option ℕ)
    → now < day
    → IsTime day sunset
    → IsTime day sunrise
    → (if auto || show then none else want_between now sunset sunrise)
      ≡ asked_by day now auto show sunset sunrise
want_between-asked day now true show sunset sunrise h h1 h2 = refl
want_between-asked day now false true sunset sunrise h h1 h2 = refl
want_between-asked day now false false none sunrise h h1 h2 = refl
want_between-asked day now false false (some sunset) none h h1 h2 = refl
want_between-asked day now false false (some sunset) (some sunrise) h h1 h2 =
    ap some (lights_should_be_on_lem day now sunset sunrise h h1 h2)

want_on-asked :
    (day now : ℕ) (apt : Apartment)
    → now < day
    → IsOfDay day apt
    → want_on now apt ≡ asked day now apt
unfolding want_on
want_on-asked day now apt h (h1, h2) =
    want_between-asked day now apt.auto_sunset_sunrise apt.christmas_mode_active
      apt.sunset_override_time apt.sunrise_override_time h h1 h2

module _ {S : Type 0} (p : Outputs S) (q : Accepting p) where
  open q use {devices, is_lit, all_templated_law, write_law}

  write_each_lem :
      (os : List ℕ) (u : ℕ) (on : Bool) (s : S)
      → is_lit (write_each p os on s) u ≡ (if any (λ o. o == u) os then on else is_lit s u)
  unfolding write_each
  write_each_lem [] u on s = refl
  write_each_lem (o ∷ os) u on s =
      let s1 = (p.write o on s).1 in ground (arith, write_law o u on s, write_each_lem os u on s1)

  override_one_lem :
      (want : Option Bool) (pk u : ℕ) (s : S)
      → is_lit (override_one p want pk s) u
        ≡ (if any (λ o. o == u) (devices pk) then or_before (is_lit s u) want else is_lit s u)
  unfolding override_one write_all
  override_one_lem none pk u s = ground arith
  override_one_lem (some on) pk u s =
      ground (arith, all_templated_law pk s, write_each_lem (devices pk) u on s)

  -- When every write is accepted, all times are times of one day and an apartment asks only if it has
  -- neither the automatic mode nor the Christmas show and both times are set, the task leaves each
  -- output as the last asking apartment that has it says, lit exactly if the present comes, going round
  -- the clock from sunset, before sunrise; an output that no apartment asks for stays as it was.
  pub apply_overrides_lem :
      (day now : ℕ) (apts : List Apartment) (u : ℕ) (s : S)
      → now < day
      → All (IsOfDay day) apts
      → is_lit (apply_overrides p now apts s) u ≡ wanted devices day now u apts (is_lit s u)
  unfolding apply_overrides
  apply_overrides_lem day now [] u s h hs = refl
  apply_overrides_lem day now (apt ∷ apts) u s h (h1, hs) =
      let s1 = override_one p (want_on now apt) apt.pk s in
      let before = is_lit s u in
      apply_overrides_lem day now apts u s1 h hs
      ∙ ap (wanted devices day now u apts) (override_one_lem (want_on now apt) apt.pk u s)
      ∙ ap
          (λ want.
            wanted devices day now u apts
              (if any (λ o. o == u) (devices apt.pk) then or_before before want else before))
          (want_on-asked day now apt h h1)
