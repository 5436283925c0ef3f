-- ===== src/Access.antt =====
-- Who may do what in which apartment: find_device/permissions.py, the memberships and grants of
-- find_device/models.py, and the two guards of find_device/views.py. Rows are records, tables are
-- lists in the order of their ids, users and apartments are their ids.
pub mod Grants
pub mod Defaults
use phone_app.Base.{
  ℕ, zero, suc, ◌+◌, ◌-◌, ◌*◌, ◌≤◌, ◌<◌, ◌≡◌, ◌≢◌, ◌⊎◌, inl, inr, refl, sym, ap, ◌∙◌, Bool, true,
  false, not, ◌&&◌, ◌||◌, Option, none, some, List, [], ◌∷◌, ◌++◌, map, arith, tests, ltb, leb,
  ◌==◌, if◌then◌else◌, Bool-cases, Option-cases, Text, codes, eqb, length,
}
use phone_app.Base.{is_in, any, is_some}

pub data BasicRole : Type 0 where
  owner resident installer : BasicRole

pub record Membership : Type 0 where
  pub pk : ℕ
  pub user : ℕ
  pub apartment : ℕ
  pub role : BasicRole
  -- The permission codes of `custom_role`, where there is one.
  pub custom_role : Option (List Text)
  pub extra_permissions : List Text
  pub is_default : Bool

-- `TemporaryAccess`, with the permission codes of its role.
pub record Grant : Type 0 where
  pub user : ℕ
  pub apartment : ℕ
  pub role_codes : List Text
  pub starts_at : ℕ
  pub expires_at : ℕ
  pub revoked : Bool

pub record Tables : Type 0 where
  pub apartments : List ℕ
  pub memberships : List Membership
  pub grants : List Grant

-- `ApartmentMembership.DEFAULT_ROLE_PERMISSIONS`
unfoldable pub default_role_permissions : BasicRole → List Text
default_role_permissions owner =
    codes "view"
    ∷ codes "control_devices"
    ∷ codes "create_automations"
    ∷ codes "edit_automations"
    ∷ codes "view_history"
    ∷ codes "manage_users"
    ∷ codes "notification_settings"
    ∷ codes "emergency_controls"
    ∷ []
default_role_permissions resident =
    codes "view"
    ∷ codes "control_devices"
    ∷ codes "create_automations"
    ∷ codes "view_history"
    ∷ codes "notification_settings"
    ∷ []
default_role_permissions installer =
    codes "view"
    ∷ codes "diagnostics"
    ∷ codes "plc_connection_settings"
    ∷ codes "installer_functions"
    ∷ codes "firmware_updates"
    ∷ []

unfoldable pub role_codes_of : Option (List Text) → BasicRole → List Text
unfolding default_role_permissions
role_codes_of (some custom) role = custom
role_codes_of none role = default_role_permissions role

-- `ApartmentMembership.permission_codes`; a set is the list of what was put in.
unfoldable pub permission_codes : Membership → List Text
unfolding role_codes_of
permission_codes m = role_codes_of m.custom_role m.role ++ m.extra_permissions

-- `TemporaryAccess.is_active`, also the filter of the two queries for grants.
unfoldable pub is_active : ℕ → Grant → Bool
is_active now g = not g.revoked && (leb g.starts_at now && leb now g.expires_at)

-- `resolve_membership`: a user has at most one membership of an apartment.
unfoldable pub resolve_membership : ℕ → ℕ → List Membership → Option Membership
resolve_membership user apartment [] = none
resolve_membership user apartment (m ∷ ms) =
    if m.user == user && m.apartment == apartment
    then some m
    else resolve_membership user apartment ms

-- The loop over the grants that the query selects.
unfoldable pub grant_codes : ℕ → ℕ → ℕ → List Grant → List Text
unfolding is_active
grant_codes user apartment now [] = []
grant_codes user apartment now (g ∷ gs) =
    (if g.user == user && (g.apartment == apartment && is_active now g) then g.role_codes else [])
    ++ grant_codes user apartment now gs

unfoldable pub membership_codes : Option Membership → List Text
unfolding permission_codes
membership_codes none = []
membership_codes (some m) = permission_codes m

-- `resolve_permissions`
unfoldable pub resolve_permissions : Tables → ℕ → ℕ → ℕ → List Text
resolve_permissions db user apartment now =
    membership_codes (resolve_membership user apartment db.memberships)
    ++ grant_codes user apartment now db.grants

-- `_require_permission`: without a user, which PLC_REQUIRE_AUTH=False allows, nothing is refused.
unfoldable pub require_permission : Tables → Option ℕ → ℕ → Text → ℕ → Bool
require_permission db none apartment code now = true
require_permission db (some user) apartment code now =
    is_in code (resolve_permissions db user apartment now)

-- `.filter(user=user).order_by('-is_default').first()`: a default one, or else the first.
unfoldable pub first_of_user : ℕ → List Membership → Option Membership
first_of_user user [] = none
first_of_user user (m ∷ ms) = if m.user == user then some m else first_of_user user ms

unfoldable pub default_of_user : ℕ → List Membership → Option Membership
default_of_user user [] = none
default_of_user user (m ∷ ms) =
    if m.user == user && m.is_default then some m else default_of_user user ms

unfoldable pub preferred : ℕ → List Membership → Option Membership
unfolding first_of_user default_of_user
preferred user ms =
    if is_some (default_of_user user ms) then default_of_user user ms else first_of_user user ms

-- `.order_by('-starts_at').first()` over the active grants of a user: the one that began last.
unfoldable pub later : Option Grant → Grant → Option Grant
later none g = some g
later (some best) g = if ltb best.starts_at g.starts_at then some g else some best

unfoldable pub latest_grant : ℕ → ℕ → List Grant → Option Grant → Option Grant
unfolding later is_active
latest_grant user now [] best = best
latest_grant user now (g ∷ gs) best =
    latest_grant user now gs (if g.user == user && is_active now g then later best g else best)

-- The answers of `_registry_or_error`: an apartment's registry, 403 NO_APARTMENT or 404 NOT_FOUND.
pub data Resolved : Type 0 where
  apartment : ℕ → Resolved
  no_apartment not_found : Resolved

abbrev pub by_grant : Option Grant → Resolved
by_grant none = no_apartment
by_grant (some g) = apartment g.apartment

abbrev pub by_membership : Option Membership → Resolved → Resolved
by_membership none rest = rest
by_membership (some m) rest = apartment m.apartment

abbrev pub first_apartment : List ℕ → Resolved
first_apartment [] = not_found
first_apartment (a ∷ rest) = apartment a

-- `_registry_or_error`: the apartment comes from the tables, never from the request.
unfoldable pub registry_or_error : Tables → Option ℕ → ℕ → Resolved
unfolding preferred latest_grant
registry_or_error db none now = first_apartment db.apartments
registry_or_error db (some user) now =
    by_membership (preferred user db.memberships) (by_grant (latest_grant user now db.grants none))

-- `ApartmentMembership.save`: the user's other default rows are cleared, then the row is written.
unfoldable pub clear_defaults : ℕ → ℕ → List Membership → List Membership
clear_defaults user pk [] = []
clear_defaults user pk (m ∷ ms) =
    (if m.user == user && not (m.pk == pk) then record m { is_default = false } else m)
    ∷ clear_defaults user pk ms

unfoldable pub write_row : Membership → List Membership → List Membership
write_row m [] = m ∷ []
write_row m (n ∷ ms) = if n.pk == m.pk then m ∷ ms else n ∷ write_row m ms

unfoldable pub save_membership : Membership → List Membership → List Membership
save_membership m ms = write_row m (if m.is_default then clear_defaults m.user m.pk ms else ms)
