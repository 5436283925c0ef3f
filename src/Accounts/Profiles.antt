-- ===== src/Accounts/Profiles.antt =====
-- find_device/auth_views.py: `me` with PATCH.
use phone_app.Base.{
  ℕ, ◌≤◌, ◌≡◌, ◌⊎◌, inl, inr, refl, Bool, true, false, ◌&&◌, ◌||◌, Option, none, some, arith, leb,
  if◌then◌else◌, Bool-cases, Text, codes, eqb,
}
use phone_app.Base.{take}
use phone_app.Base.Int.{ℤ, pos, negsuc}
use phone_app.Json.{Json, text, json_text, json_truthy, json_int}

-- The columns of `UserProfile`, and the two names of the user.
pub record Profile : Type 0 where
  pub theme : Text
  pub push_notifications_enabled : Bool
  pub show_ventilators_home : Bool
  pub dim_duration_ms : ℕ
  pub undim_duration_ms : ℕ

pub record Names : Type 0 where
  pub first_name : Text
  pub last_name : Text

-- The row of `get_or_create` for a user without one.
abbrev pub new_profile : Profile
new_profile = record {
  theme = codes "dark";
  push_notifications_enabled = true;
  show_ventilators_home = true;
  dim_duration_ms = 800;
  undim_duration_ms = 500;
}

-- The body of the request; `none` is a field that is not in it.
pub record Patch : Type 0 where
  pub theme : Option Json
  pub push_notifications : Option Json
  pub show_ventilators_home : Option Json
  pub dim_duration_ms : Option Json
  pub undim_duration_ms : Option Json
  pub first_name : Option Json
  pub last_name : Option Json

-- A field is left out, refused, or set.
pub data Change (A : Type 0) : Type 0 where
  kept : Change A
  refused : Change A
  set : A → Change A

unfoldable pub theme_of : Option Json → Change Text
theme_of none = kept
theme_of (some (text t)) = if eqb t (codes "dark") || eqb t (codes "light") then set t else refused
theme_of (some j) = refused

unfoldable pub ms_of : Option ℤ → Change ℕ
ms_of none = refused
ms_of (some (pos n)) = if leb 100 n && leb n 5000 then set n else refused
ms_of (some (negsuc n)) = refused

unfoldable pub duration_of : Option Json → Change ℕ
unfolding ms_of
duration_of none = kept
duration_of (some j) = ms_of (json_int j)

abbrev pub or_old : {A : Type 0} → Change A → A → A
or_old kept a = a
or_old refused a = a
or_old (set b) a = b

abbrev pub is_refused : {A : Type 0} → Change A → Bool
is_refused kept = false
is_refused refused = true
is_refused (set a) = false

abbrev pub flag_or_old : Option Json → Bool → Bool
flag_or_old none b = b
flag_or_old (some j) b = json_truthy j

abbrev pub name_or_old : Option Json → Text → Text
name_or_old none t = t
name_or_old (some j) t = take 50 (json_text j)

abbrev pub profile_or_new : Option Profile → Profile
profile_or_new none = new_profile
profile_or_new (some p) = p

unfoldable pub patched : Patch → Profile → Profile
unfolding theme_of duration_of
patched b p = record {
  theme = or_old (theme_of b.theme) p.theme;
  push_notifications_enabled = flag_or_old b.push_notifications p.push_notifications_enabled;
  show_ventilators_home = flag_or_old b.show_ventilators_home p.show_ventilators_home;
  dim_duration_ms = or_old (duration_of b.dim_duration_ms) p.dim_duration_ms;
  undim_duration_ms = or_old (duration_of b.undim_duration_ms) p.undim_duration_ms;
}

-- `me` with PATCH: whether it answers 200, and the rows afterwards. An early return comes before the first
-- `save`, but after `get_or_create`.
unfoldable pub patch_me : Patch → Option Profile → Names → Bool × Profile × Names
unfolding patched
patch_me b profile names =
    let p = profile_or_new profile in
    if is_refused (theme_of b.theme)
      || (is_refused (duration_of b.dim_duration_ms)
          || is_refused (duration_of b.undim_duration_ms))
    then (false, p, names)
    else (
      true,
      patched b p,
      record {
        first_name = name_or_old b.first_name names.first_name;
        last_name = name_or_old b.last_name names.last_name;
      },
    )

duration_of-bounds :
    (j : Option Json) (d : ℕ)
    → 100 ≤ d
    → d ≤ 5000
    → (100 ≤ or_old (duration_of j) d) × (or_old (duration_of j) d ≤ 5000)
unfolding duration_of ms_of
duration_of-bounds none d lo hi = (lo, hi)
duration_of-bounds (some j) d lo hi = go (json_int j)
  where
    go : (n : Option ℤ) → (100 ≤ or_old (ms_of n) d) × (or_old (ms_of n) d ≤ 5000)
    go none = (lo, hi)
    go (some (pos n)) = ground arith
    go (some (negsuc n)) = (lo, hi)

-- The durations that a fade may take.
abbrev pub HasDurations : Profile → Type 0
HasDurations p =
    (100 ≤ p.dim_duration_ms)
    × (p.dim_duration_ms ≤ 5000)
    × (100 ≤ p.undim_duration_ms)
    × (p.undim_duration_ms ≤ 5000)

-- The durations of a profile are in the range after any PATCH, if they were before or there was no profile;
-- and a PATCH that is refused changes no column of a profile that was there, and no name.
pub patch_me_durations :
    (b : Patch) (profile : Option Profile) (names : Names)
    → HasDurations (profile_or_new profile)
    → let (accepted, p, n) = patch_me b profile names in
      HasDurations p × ((accepted ≡ true) ⊎ ((p ≡ profile_or_new profile) × (n ≡ names)))
unfolding patch_me patched
patch_me_durations b profile names h =
    let p = profile_or_new profile in
    let dim = duration_of-bounds b.dim_duration_ms p.dim_duration_ms h.0 h.1 in
    let undim = duration_of-bounds b.undim_duration_ms p.undim_duration_ms h.2 h.3 in
    let bad =
      is_refused (theme_of b.theme)
      || (is_refused (duration_of b.dim_duration_ms)
          || is_refused (duration_of b.undim_duration_ms)) in
    elim (Bool-cases bad) [
      | inl e ↦ rw e (h, inr (refl, refl))
      | inr e ↦ rw e ((dim.0, dim.1, undim.0, undim.1), inl refl)
    ]
