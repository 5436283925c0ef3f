-- ===== src/Tests/Accounts.antt =====
-- Runs of the account views on a small table.
use phone_app.Base.{
  ℕ, ◌≡◌, ◌≢◌, ◌⊎◌, refl, Bool, true, false, not, none, some, List, [], ◌∷◌, arith, ltb, codes,
  length,
}
use phone_app.Base.{is_some}
use phone_app.Json.{text, number}
use phone_app.Base.Int.{pos}
use phone_app.Access.{Membership, resident, resolve_membership, registry_or_error, apartment}
use phone_app.Accounts.{
  User, Apartment, Session, Db, ok, find_user, find_apartment, owned_buildings,
  is_staff_or_building_owner, user_in_scope,
}
use phone_app.Accounts.Sessions.{Client, refresh_token, force_logout, login, live_sessions}
use phone_app.Accounts.Managing.{Auth, user_reset_password}
use phone_app.Accounts.Assigning.{user_assign_apartment}
use phone_app.Accounts.Places.{apartment_select}
use phone_app.Accounts.Profiles.{patch_me_durations, Patch, patch_me, HasDurations, new_profile}
use phone_app.Accounts.Revoking.{is_listed}
use phone_app.Accounts.Revoked.{
  end_sessions, disabling, ended_sessions_are_refused, unrecorded_login_survives,
}
use phone_app.Accounts.Scoped.{user_call, call_disable, Reaches, user_call-Reaches}
use phone_app.Accounts.Takeover.{as_resident, owner_takes_over}
use phone_app.Accounts.Chosen.{apartment_select-registry_or_error}
use phone_app.Tests.Tokens.{
  jwt, jwt-JwtLaws, is_valid, check_token, is_outstanding, for_user, authenticate,
}

abbrev auth : Auth
auth = record {
  validate_password = λ t. ltb 7 (length t);
  make_password = λ t. t;
  create_user = λ pk name password email first. record {
    pk = pk;
    username = name;
    email = email;
    first_name = first;
    is_active = true;
    is_staff = false;
    password = password;
  };
}

abbrev account : ℕ → Bool → User
account pk is_staff = record {
  pk = pk;
  username = codes "u";
  email = [];
  first_name = [];
  is_active = true;
  is_staff = is_staff;
  password = [];
}

-- Ann owns a building, Bob and Eve are of the staff.
abbrev ann : User
ann = account 1 false

abbrev bob : User
bob = account 2 true

abbrev eve : User
eve = account 3 true

abbrev loft : Apartment
loft = record { pk = 7; name = codes "Loft"; building = codes "North"; floor = [] }

abbrev laptop : Client
laptop = record {
  device_name = codes "laptop";
  device_os = [];
  user_agent = codes "curl";
  app_version = [];
  ip = some (codes "nowhere");
}

abbrev bob_session : Session
bob_session = record {
  pk = 1;
  jti = 0 ∷ [];
  user = 2;
  device_name = codes "phone";
  os = [];
  app_version = [];
  ip_address = none;
  revoked = false;
}

abbrev bob_at_loft : Membership
bob_at_loft = record {
  pk = 1;
  user = 2;
  apartment = 7;
  role = resident;
  custom_role = none;
  extra_permissions = [];
  is_default = false;
}

-- Bob is logged in once, with the first token that was given out.
abbrev db : Db (List Bool)
db = record {
  users = ann ∷ bob ∷ eve ∷ [];
  apartments = loft ∷ [];
  memberships = bob_at_loft ∷ [];
  building_memberships = (1, codes "North") ∷ [];
  sessions = bob_session ∷ [];
  roles = [];
  permissions = [];
  tokens = false ∷ [];
}

-- Bob lives nowhere.
abbrev empty_db : Db (List Bool)
empty_db = record db { memberships = [] }

-- The database takes no row with an address that is none.
abbrev accepts : Session → Bool
accepts s = not (is_some s.ip_address)

disabled_ok : (end_sessions jwt auth disabling eve 2 db).0 ≡ ok
unfolding end_sessions is_staff_or_building_owner user_in_scope
disabled_ok = refl

ended_sessions_are_refused_example :
    let db' = (end_sessions jwt auth disabling eve 2 db).1 in
    (live_sessions 2 db'.sessions ≡ [])
    × ((refresh_token jwt accepts 5 laptop (2 ∷ 0 ∷ []) db').0 ≢ ok)
unfolding is_listed is_outstanding check_token is_valid
ended_sessions_are_refused_example =
    ended_sessions_are_refused jwt auth jwt-JwtLaws disabling eve 2 db (2 ∷ 0 ∷ []) (0 ∷ []) 2
      accepts 5 laptop disabled_ok refl refl refl

unrecorded_login_survives_example :
    let (answer, token, db1) = login jwt accepts 5 laptop (codes "bob") (codes "secret") db in
    (answer ≡ ok)
    × (token ≡ some (2 ∷ 1 ∷ []))
    × ((refresh_token jwt accepts 5 laptop (2 ∷ 1 ∷ []) (force_logout jwt 2 db1).1).0 ≡ ok)
unfolding is_listed for_user authenticate find_user
unrecorded_login_survives_example =
    unrecorded_login_survives jwt auth jwt-JwtLaws accepts 5 laptop (codes "bob") (codes "secret")
      db bob 2 (1 ∷ []) (λ s h. ground arith) refl refl refl refl

user_call-Reaches_example : Reaches jwt auth ann 3 2 db (user_call jwt auth call_disable ann 3 db)
user_call-Reaches_example = user_call-Reaches jwt auth call_disable ann 3 2 db (omega arith)

owner_takes_over_example :
    let db1 = (user_assign_apartment 9 ann 2 (as_resident 7) empty_db).1 in
    let (answer, db2) = user_reset_password jwt auth ann 2 (some (codes "password")) db1 in
    (answer ≡ ok) × (find_user 2 db2.users ≡ some (record bob { password = codes "password" }))
unfolding owned_buildings find_apartment find_user
owner_takes_over_example =
    owner_takes_over jwt auth 9 ann bob loft empty_db b'p' (codes "assword") refl refl (omega arith)
      refl refl

selected_ok : (apartment_select bob 7 db).0 ≡ ok
unfolding apartment_select resolve_membership
selected_ok = refl

apartment_select-registry_or_error_example :
    registry_or_error
      (record {
        apartments = 7 ∷ [];
        memberships = (apartment_select bob 7 db).1.memberships;
        grants = [];
      })
      (some 2)
      0
    ≡ apartment 7
apartment_select-registry_or_error_example =
    apartment_select-registry_or_error bob 7 0 (7 ∷ []) [] db selected_ok

-- A body that sets one duration in the range and one below it.
abbrev too_fast : Patch
too_fast = record {
  theme = some (text (codes "light"));
  push_notifications = none;
  show_ventilators_home = none;
  dim_duration_ms = some (number (pos 600));
  undim_duration_ms = some (text (codes "99"));
  first_name = none;
  last_name = none;
}

patch_me_durations_example :
    let (accepted, p, n) =
      patch_me too_fast none (record { first_name = codes "A"; last_name = codes "B" }) in
    HasDurations p
    × ((accepted ≡ true)
        ⊎ ((p ≡ new_profile) × (n ≡ record { first_name = codes "A"; last_name = codes "B" })))
patch_me_durations_example =
    patch_me_durations too_fast none (record { first_name = codes "A"; last_name = codes "B" })
      (omega arith)
