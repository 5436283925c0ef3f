-- ===== src/Accounts/Places.antt =====
-- The apartments: `_create_apartment` of find_device/user_management_views.py, and `apartment_select` and
-- `apartment_rename` of find_device/auth_views.py.
use phone_app.Base.{
  ℕ, Bool, true, not, ◌&&◌, ◌||◌, Option, none, some, List, [], ◌∷◌, ◌++◌, ltb, ◌==◌, if◌then◌else◌,
  Text, eqb, length,
}
use phone_app.Base.{any, is_in, is_some, strip}
use phone_app.Json.{Json, json_text}
use phone_app.Access.{Membership, Grant, is_active, resolve_membership, save_membership}
use phone_app.Accounts.{
  User, Apartment, Db, Answer, ok, created, invalid_param, forbidden, not_found, duplicate,
  find_apartment, is_staff_or_building_owner, owned_buildings,
}
use phone_app.Accounts.Managing.{or_blank}

-- The building of a new apartment: an owner of one building who names none means that one.
unfoldable pub default_building : Text → List Text → Text
default_building [] (b ∷ []) = b
default_building given owned = given

-- The building, or `none` where the caller may not create an apartment there. `owned_buildings` is a set.
unfoldable pub building_for : Bool → Text → List Text → Option Text
unfolding default_building
building_for is_staff given owned =
    if is_staff
    then some given
    else if is_in (default_building given owned) owned
    then some (default_building given owned)
    else none

unfoldable pub rename : ℕ → Text → List Apartment → List Apartment
rename pk name [] = []
rename pk name (a ∷ rest) =
    if a.pk == pk then record a { name = name } ∷ rest else a ∷ rename pk name rest

-- A membership, or a grant that is active.
unfoldable pub is_member_of : ℕ → ℕ → ℕ → List Membership → List Grant → Bool
is_member_of user apartment now ms gs =
    is_some (resolve_membership user apartment ms)
    || any (λ g. g.user == user && (g.apartment == apartment && is_active now g)) gs

module _ {W : Type 0} where
  unfoldable pub create_in : ℕ → Text → Text → Option Text → Db W → Answer × Db W
  create_in pk name floor none db = (invalid_param, db)
  create_in pk name floor (some building) db = (
    created,
    record db {
      apartments =
          db.apartments
          ++ (record { pk = pk; name = name; building = building; floor = floor }) ∷ [];
    },
  )

  -- `_create_apartment`; `pk` is the id of the new row.
  unfoldable pub create_apartment :
      ℕ → User → Option Text → Option Text → Option Text → Db W → Answer × Db W
  unfolding create_in building_for
  create_apartment pk caller name building floor db =
      let given = strip (or_blank name) in
      let owned = owned_buildings caller.pk db.building_memberships in
      if is_staff_or_building_owner caller db
      then if eqb given []
        then (invalid_param, db)
        else if any (λ a. eqb a.name given) db.apartments
        then (duplicate, db)
        else create_in pk given (strip (or_blank floor))
            (building_for caller.is_staff (strip (or_blank building)) owned) db
      else (forbidden, db)

  -- `apartment_select`
  unfoldable pub select_found : Option Membership → Db W → Answer × Db W
  select_found none db = (not_found, db)
  select_found (some m) db = (
    ok,
    record db { memberships = save_membership (record m { is_default = true }) db.memberships },
  )

  unfoldable pub apartment_select : User → ℕ → Db W → Answer × Db W
  unfolding select_found
  apartment_select caller pk db = select_found (resolve_membership caller.pk pk db.memberships) db

  -- `apartment_rename`; a missing name is "".
  unfoldable pub apartment_rename : ℕ → List Grant → User → ℕ → Option Json → Db W → Answer × Db W
  unfolding rename is_member_of json_text
  apartment_rename now grants caller pk name db =
      let given = strip (elim name [ none ↦ [] | some j ↦ json_text j ]) in
      if not (is_some (find_apartment pk db.apartments))
      then (not_found, db)
      else if not (is_member_of caller.pk pk now db.memberships grants)
      then (forbidden, db)
      else if eqb given [] || ltb 100 (length given)
      then (invalid_param, db)
      else (ok, record db { apartments = rename pk given db.apartments })
