-- ===== src/Accounts/Settings.antt =====
-- find_device/user_management_views.py: `apartment_building_settings` with PATCH.
use phone_app.Base.{
  ℕ, ◌≤◌, ◌≡◌, ◌⊎◌, inl, inr, refl, Bool, true, false, ◌||◌, Option, none, some, [], ◌∷◌, arith,
  ltb, if◌then◌else◌, Bool-cases, Text,
}
use phone_app.Base.Int.{ℤ, pos, negsuc}
use phone_app.Json.{Json, null, text, json_int}
use phone_app.Accounts.Profiles.{Change, kept, refused, set, or_old, is_refused, flag_or_old}

-- The columns of an apartment that the view changes; a time of day is in minutes.
pub record Settings : Type 0 where
  pub auto_sunset_sunrise : Bool
  pub sunset_override_time : Option ℕ
  pub sunrise_override_time : Option ℕ
  pub poll_interval_s : ℕ

-- The body of the request; `none` is a field that is not in it.
pub record SettingsPatch : Type 0 where
  pub auto_sunset_sunrise : Option Json
  pub sunset_override_time : Option Json
  pub sunrise_override_time : Option Json
  pub poll_interval_s : Option Json

-- `_parse_hhmm` with `strptime` as a parameter, for a text that is not empty.
abbrev pub parsed : Option ℕ → Change (Option ℕ)
parsed none = refused
parsed (some t) = set (some t)

unfoldable pub time_of : (Text → Option ℕ) → Option Json → Change (Option ℕ)
time_of strptime none = kept
time_of strptime (some null) = set none
time_of strptime (some (text [])) = set none
time_of strptime (some (text (c ∷ t))) = parsed (strptime (c ∷ t))
time_of strptime (some (Json.boolean b)) = refused
time_of strptime (some (Json.number n)) = refused

unfoldable pub seconds_of : Option ℤ → Change ℕ
seconds_of none = refused
seconds_of (some (pos n)) = if ltb n 1 || ltb 60 n then refused else set n
seconds_of (some (negsuc n)) = refused

unfoldable pub interval_of : Option Json → Change ℕ
unfolding seconds_of
interval_of none = kept
interval_of (some j) = seconds_of (json_int j)

-- `apartment_building_settings` with PATCH: whether it answers 200, and the columns afterwards. Every early
-- return comes before the `save`.
unfoldable pub patch_settings : (Text → Option ℕ) → SettingsPatch → Settings → Bool × Settings
unfolding time_of interval_of
patch_settings strptime b s =
    let sunset = time_of strptime b.sunset_override_time in
    let sunrise = time_of strptime b.sunrise_override_time in
    let interval = interval_of b.poll_interval_s in
    if is_refused sunset || (is_refused sunrise || is_refused interval) then (false, s) else (
      true,
      record {
        auto_sunset_sunrise = flag_or_old b.auto_sunset_sunrise s.auto_sunset_sunrise;
        sunset_override_time = or_old sunset s.sunset_override_time;
        sunrise_override_time = or_old sunrise s.sunrise_override_time;
        poll_interval_s = or_old interval s.poll_interval_s;
      },
    )

interval_of-bounds :
    (j : Option Json) (n : ℕ)
    → 1 ≤ n
    → n ≤ 60
    → (1 ≤ or_old (interval_of j) n) × (or_old (interval_of j) n ≤ 60)
unfolding interval_of seconds_of
interval_of-bounds none n lo hi = (lo, hi)
interval_of-bounds (some j) n lo hi = go (json_int j)
  where
    go : (m : Option ℤ) → (1 ≤ or_old (seconds_of m) n) × (or_old (seconds_of m) n ≤ 60)
    go none = (lo, hi)
    go (some (pos m)) = ground arith
    go (some (negsuc m)) = (lo, hi)

-- The polling interval stays between 1 and 60 seconds, and a PATCH that is refused changes nothing.
pub patch_settings-bounds :
    (strptime : Text → Option ℕ) (b : SettingsPatch) (s : Settings)
    → 1 ≤ s.poll_interval_s
    → s.poll_interval_s ≤ 60
    → let (accepted, t) = patch_settings strptime b s in
      (1 ≤ t.poll_interval_s) × (t.poll_interval_s ≤ 60) × ((accepted ≡ true) ⊎ (t ≡ s))
unfolding patch_settings
patch_settings-bounds strptime b s lo hi =
    let range = interval_of-bounds b.poll_interval_s s.poll_interval_s lo hi in
    let bad =
      is_refused (time_of strptime b.sunset_override_time)
      || (is_refused (time_of strptime b.sunrise_override_time)
          || is_refused (interval_of b.poll_interval_s)) in
    elim (Bool-cases bad) [
      | inl e ↦ rw e (lo, hi, inr refl)
      | inr e ↦ rw e (range.0, range.1, inl refl)
    ]
