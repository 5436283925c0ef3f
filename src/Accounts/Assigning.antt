-- ===== src/Accounts/Assigning.antt =====
-- find_device/user_management_views.py: the apartments and permissions of a user.
use phone_app.Base.{
  ℕ, Bool, ◌&&◌, Option, none, some, List, [], ◌∷◌, ◌==◌, if◌then◌else◌, Text, codes, eqb,
}
use phone_app.Base.{is_in, is_some, get_at}
use phone_app.Json.{Json, json_truthy}
use phone_app.Access.{
  BasicRole, owner, resident, installer, Membership, resolve_membership, save_membership, write_row,
}
use phone_app.Accounts.{
  User, Apartment, Db, Answer, ok, created, invalid_param, forbidden, not_found, find_user,
  is_staff_or_building_owner, apartment_in_scope,
}

unfoldable pub drop_membership : ℕ → ℕ → List Membership → List Membership
drop_membership user apartment [] = []
drop_membership user apartment (m ∷ ms) =
    let rest = drop_membership user apartment ms in
    if m.user == user && m.apartment == apartment then rest else m ∷ rest

-- `Permission.objects.filter(code__in=codes)`
unfoldable pub known : List Text → List Text → List Text
known codes [] = []
known codes (c ∷ cs) = if is_in c codes then c ∷ known codes cs else known codes cs

-- `ApartmentMembership.ROLE_CHOICES`; a missing role is a resident.
abbrev pub role_of : Option Text → Option BasicRole
role_of none = some resident
role_of (some t) =
    if eqb t (codes "owner")
    then some owner
    else if eqb t (codes "resident")
    then some resident
    else if eqb t (codes "installer")
    then some installer
    else none

-- `if custom_role_id: get_object_or_404(Role, ...)`; the outer `none` is the 404.
abbrev pub found_codes : Option (List Text) → Option (Option (List Text))
found_codes none = none
found_codes (some c) = some (some c)

unfoldable pub custom_role_of : Option ℕ → List (ℕ × List Text) → Option (Option (List Text))
custom_role_of none roles = some none
custom_role_of (some id) roles = if id == 0 then some none else found_codes (get_at id roles)

-- The row that `update_or_create` saves: `pk` is the id of a new one.
unfoldable pub assigned_row :
    ℕ → ℕ → ℕ → BasicRole → Option (List Text) → Bool → Option Membership → Membership
assigned_row pk user apartment role custom is_default none = record {
  pk = pk;
  user = user;
  apartment = apartment;
  role = role;
  custom_role = custom;
  extra_permissions = [];
  is_default = is_default;
}
assigned_row pk user apartment role custom is_default (some m) = record m {
  role = role;
  custom_role = custom;
  is_default = is_default;
}

-- What is left of the body of `user_assign_apartment` once it is read.
pub record Assignment : Type 0 where
  pub apartment_id : Option ℕ
  pub role : Option Text
  pub custom_role_id : Option ℕ
  pub is_default : Json

module _ {W : Type 0} where
  unfoldable pub assign_role :
      ℕ → ℕ → ℕ → Bool → Option BasicRole → Option (Option (List Text)) → Db W → Answer × Db W
  unfolding assigned_row
  assign_role pk user apartment is_default none custom db = (invalid_param, db)
  assign_role pk user apartment is_default (some role) none db = (not_found, db)
  assign_role pk user apartment is_default (some role) (some custom) db =
      let old = resolve_membership user apartment db.memberships in
      (
        (if is_some old then ok else created),
        record db {
          memberships =
              save_membership (assigned_row pk user apartment role custom is_default old)
                db.memberships;
        },
      )

  unfoldable pub assign_in : ℕ → ℕ → Assignment → Option Apartment → Db W → Answer × Db W
  unfolding assign_role custom_role_of
  assign_in pk user body none db = (not_found, db)
  assign_in pk user body (some apartment) db =
      assign_role pk user apartment.pk (json_truthy body.is_default) (role_of body.role)
        (custom_role_of body.custom_role_id db.roles) db

  unfoldable pub assign_found : ℕ → User → ℕ → Assignment → Option ℕ → Db W → Answer × Db W
  unfolding assign_in
  assign_found pk caller user body none db = (invalid_param, db)
  assign_found pk caller user body (some id) db =
      if id == 0
      then (invalid_param, db)
      else assign_in pk user body (apartment_in_scope caller id db) db

  -- `user_assign_apartment`: the user may be any, the apartment must be in scope. `new` is the id of a new
  -- row.
  unfoldable pub user_assign_apartment : ℕ → User → ℕ → Assignment → Db W → Answer × Db W
  unfolding assign_found
  user_assign_apartment new caller pk body db =
      if is_staff_or_building_owner caller db
      then if is_some (find_user pk db.users)
        then assign_found new caller pk body body.apartment_id db
        else (not_found, db)
      else (forbidden, db)

  -- `user_remove_apartment`
  unfoldable pub user_remove_apartment : User → ℕ → ℕ → Db W → Answer × Db W
  user_remove_apartment caller pk apartment db =
      if is_staff_or_building_owner caller db
      then if is_some (find_user pk db.users)
          && is_some (apartment_in_scope caller apartment db)
          && is_some (resolve_membership pk apartment db.memberships)
        then (ok, record db { memberships = drop_membership pk apartment db.memberships })
        else (not_found, db)
      else (forbidden, db)

  -- `user_apartment_permissions` with POST; `none` is a body that holds no list.
  unfoldable pub set_permissions : Option (List Text) → Option Membership → Db W → Answer × Db W
  set_permissions codes none db = (not_found, db)
  set_permissions none (some m) db = (invalid_param, db)
  set_permissions (some codes) (some m) db = (
    ok,
    record db {
      memberships =
          write_row (record m { extra_permissions = known codes db.permissions }) db.memberships;
    },
  )

  unfoldable pub user_apartment_permissions :
      User → ℕ → ℕ → Option (List Text) → Db W → Answer × Db W
  unfolding set_permissions
  user_apartment_permissions caller pk apartment codes db =
      if is_staff_or_building_owner caller db
      then if is_some (apartment_in_scope caller apartment db)
        then set_permissions codes (resolve_membership pk apartment db.memberships) db
        else (not_found, db)
      else (forbidden, db)
