-- ===== src/Accounts.antt =====
-- Who may administer whom: the tables of the accounts (find_device/models.py) and the scopes of
-- find_device/permissions.py. A text field of a request's body is a text or is missing, and an id is a
-- number or is missing. The audit log, which no answer depends on, is not part of the state.
pub mod Sessions
pub mod Managing
pub mod Assigning
pub mod Places
pub mod Profiles
pub mod Settings
pub mod Revoking
pub mod Revoked
pub mod Lookup
pub mod Chosen
pub mod Scoped
pub mod Takeover
use phone_app.Base.{
  is_some, ℕ, zero, suc, ◌+◌, ◌-◌, ◌*◌, ◌≤◌, ◌<◌, ◌≡◌, ◌≢◌, ◌⊎◌, inl, inr, refl, sym, ap, ◌∙◌, Bool,
  true, false, not, ◌&&◌, ◌||◌, Option, none, some, List, [], ◌∷◌, ◌++◌, map, arith, tests, ltb,
  leb, ◌==◌, if◌then◌else◌, Bool-cases, Option-cases, Text, codes, eqb, length,
}
use phone_app.Base.{any, is_in}
use phone_app.Access.{Membership}

-- `User`: `password` is what the password hasher made.
pub record User : Type 0 where
  pub pk : ℕ
  pub username : Text
  pub email : Text
  pub first_name : Text
  pub is_active : Bool
  pub is_staff : Bool
  pub password : Text

pub record Apartment : Type 0 where
  pub pk : ℕ
  pub name : Text
  pub building : Text
  pub floor : Text

-- `SessionInfo`; its jti is unique.
pub record Session : Type 0 where
  pub pk : ℕ
  pub jti : Text
  pub user : ℕ
  pub device_name : Text
  pub os : Text
  pub app_version : Text
  pub ip_address : Option Text
  pub revoked : Bool

-- The tables. `tokens` is the state of SimpleJWT's own.
pub record Db (W : Type 0) : Type 0 where
  pub users : List User
  pub apartments : List Apartment
  pub memberships : List Membership
  pub building_memberships : List (ℕ × Text)
  pub sessions : List Session
  pub roles : List (ℕ × List Text)
  pub permissions : List Text
  pub tokens : W

-- The status of a response: 200, 201, 400 (INVALID_PARAM and WEAK_PASSWORD), 401, 403, 404, 409, 500.
pub data Answer : Type 0 where
  ok created invalid_param weak_password token_invalid forbidden not_found duplicate server_error :
      Answer

unfoldable pub find_user : ℕ → List User → Option User
find_user pk [] = none
find_user pk (u ∷ us) = if u.pk == pk then some u else find_user pk us

unfoldable pub find_apartment : ℕ → List Apartment → Option Apartment
find_apartment pk [] = none
find_apartment pk (a ∷ as') = if a.pk == pk then some a else find_apartment pk as'

-- `qs.update(...)` of one row: `save` with the fields that were set.
unfoldable pub save_user : User → List User → List User
save_user v [] = []
save_user v (u ∷ us) = if u.pk == v.pk then v ∷ us else u ∷ save_user v us

-- `owned_buildings`
unfoldable pub owned_buildings : ℕ → List (ℕ × Text) → List Text
owned_buildings user [] = []
owned_buildings user ((u, building) ∷ rest) =
    if u == user then building ∷ owned_buildings user rest else owned_buildings user rest

-- `is_building_owner`
unfoldable pub is_building_owner : ℕ → Text → List (ℕ × Text) → Bool
is_building_owner user [] rows = false
is_building_owner user (c ∷ cs) rows = any (λ r. r.0 == user && eqb r.1 (c ∷ cs)) rows

module _ {W : Type 0} where
  -- `IsStaffOrBuildingOwner.has_permission` for an authenticated user.
  unfoldable pub is_staff_or_building_owner : User → Db W → Bool
  is_staff_or_building_owner caller db =
      caller.is_staff || any (λ r. r.0 == caller.pk) db.building_memberships

  -- Whether `apartments_in_scope` has an apartment.
  unfoldable pub is_apartment_in_scope : User → Db W → Apartment → Bool
  unfolding owned_buildings
  is_apartment_in_scope caller db apartment =
      caller.is_staff
      || is_in apartment.building (owned_buildings caller.pk db.building_memberships)

  -- `get_object_or_404(apartments_in_scope(user), pk=pk)`
  unfoldable pub apartment_in_scope : User → ℕ → Db W → Option Apartment
  unfolding is_apartment_in_scope find_apartment
  apartment_in_scope caller pk db = elim (find_apartment pk db.apartments) [
    | none ↦ none
    | some apartment ↦ if is_apartment_in_scope caller db apartment then some apartment else none
  ]

  -- Whether `users_in_scope` has a user.
  unfoldable pub is_user_in_scope : User → Db W → ℕ → Bool
  unfolding apartment_in_scope
  is_user_in_scope caller db user =
      caller.is_staff
      || any (λ m. m.user == user && is_some (apartment_in_scope caller m.apartment db))
          db.memberships

  -- `get_object_or_404(users_in_scope(user), pk=pk)`
  unfoldable pub user_in_scope : User → ℕ → Db W → Option User
  unfolding is_user_in_scope find_user
  user_in_scope caller pk db = if is_user_in_scope caller db pk then find_user pk db.users else none
