-- ===== src/Access/Grants.antt =====
-- What resolving permissions grants, and whose apartment a request can reach.
use phone_app.Base.{
  ℕ, ◌≡◌, ◌⊎◌, inl, refl, Bool, true, false, not, ◌&&◌, ◌||◌, Option, none, some, List, [], ◌∷◌,
  ◌++◌, arith, leb, ◌==◌, if◌then◌else◌, Text, codes,
}
use phone_app.Base.{is_in, any}
use phone_app.Access.{
  by_membership, BasicRole, owner, resident, installer, Membership, Grant, Tables,
  default_role_permissions, role_codes_of, permission_codes, is_active, resolve_membership,
  grant_codes, membership_codes, resolve_permissions, first_of_user, default_of_user, preferred,
  later, latest_grant, apartment, by_grant, registry_or_error,
}

is_in-append : (c : Text) (xs ys : List Text) → is_in c (xs ++ ys) ≡ (is_in c xs || is_in c ys)
is_in-append c [] ys = refl
is_in-append c (x ∷ xs) ys = ground (arith, is_in-append c xs ys)

-- The grant is the user's, for the apartment, not revoked, within its time, and names the code.
abbrev pub gives : ℕ → ℕ → ℕ → Text → Grant → Bool
gives user apt now code g =
    g.user == user
    && g.apartment == apt
    && not g.revoked
    && leb g.starts_at now
    && leb now g.expires_at
    && is_in code g.role_codes

grant_codes_lem :
    (user apt now : ℕ) (code : Text) (gs : List Grant)
    → is_in code (grant_codes user apt now gs) ≡ any (gives user apt now code) gs
unfolding grant_codes
grant_codes_lem user apt now code [] = refl
grant_codes_lem user apt now code (g ∷ gs) = ground (
  arith,
  is_in-append code
      (if g.user == user && (g.apartment == apt && is_active now g) then g.role_codes else [])
      (grant_codes user apt now gs),
  grant_codes_lem user apt now code gs,
)

-- A user holds a permission for an apartment exactly if the membership of that apartment carries it
-- or some grant does that is the user's, for that apartment, not revoked, and within its time.
pub resolve_permissions_lem :
    (db : Tables) (user apt now : ℕ) (code : Text)
    → is_in code (resolve_permissions db user apt now) ≡ (
        is_in code (membership_codes (resolve_membership user apt db.memberships))
        || any (gives user apt now code) db.grants)
unfolding resolve_permissions
resolve_permissions_lem db user apt now code = rw (
  is_in-append code (membership_codes (resolve_membership user apt db.memberships))
      (grant_codes user apt now db.grants),
  grant_codes_lem user apt now code db.grants,
)

abbrev pub is_installer : BasicRole → Bool
is_installer owner = false
is_installer resident = false
is_installer installer = true

abbrev pub RoleFacts : List Text → BasicRole → Type 0
RoleFacts held r =
    (is_in (codes "plc_connection_settings") held ≡ is_installer r)
    × (is_in (codes "diagnostics") held ≡ is_installer r)
    × (is_in (codes "installer_functions") held ≡ is_installer r)
    × (is_in (codes "firmware_updates") held ≡ is_installer r)
    × (is_in (codes "control_devices") held ≡ not (is_installer r))

role_facts : (r : BasicRole) → RoleFacts (default_role_permissions r ++ []) r
unfolding default_role_permissions
role_facts owner = (refl, refl, refl, refl, refl)
role_facts resident = (refl, refl, refl, refl, refl)
role_facts installer = (refl, refl, refl, refl, refl)

-- A membership without custom role and without extra permissions can open the PLC settings, the
-- diagnostics, the installer's functions and the firmware updates exactly if it is an installer's,
-- and can control devices exactly if it is not.
pub role_separation :
    (m : Membership)
    → m.custom_role ≡ none
    → m.extra_permissions ≡ []
    → RoleFacts (permission_codes m) m.role
unfolding permission_codes role_codes_of
role_separation m no_custom no_extra = rw (no_custom, no_extra) (role_facts m.role)

abbrev pub is_membership : ℕ → ℕ → Membership → Bool
is_membership user a m = m.user == user && m.apartment == a

abbrev pub is_grant : ℕ → ℕ → ℕ → Grant → Bool
is_grant user a now g = g.user == user && g.apartment == a && is_active now g

first_of_user-any :
    (user : ℕ) (ms : List Membership) (m : Membership)
    → first_of_user user ms ≡ some m
    → any (is_membership user m.apartment) ms ≡ true
unfolding first_of_user
first_of_user-any user [] m e = ground arith
first_of_user-any user (n ∷ ms) m e = ground (arith, first_of_user-any user ms m)

default_of_user-any :
    (user : ℕ) (ms : List Membership) (m : Membership)
    → default_of_user user ms ≡ some m
    → any (is_membership user m.apartment) ms ≡ true
unfolding default_of_user
default_of_user-any user [] m e = ground arith
default_of_user-any user (n ∷ ms) m e = ground (arith, default_of_user-any user ms m)

preferred-any :
    (user : ℕ) (ms : List Membership) (m : Membership)
    → preferred user ms ≡ some m
    → any (is_membership user m.apartment) ms ≡ true
unfolding preferred
preferred-any user ms m e =
    ground (arith, default_of_user-any user ms m, first_of_user-any user ms m)

latest_grant-any :
    (user now : ℕ) (gs : List Grant) (best : Option Grant) (g : Grant)
    → latest_grant user now gs best ≡ some g
    → (best ≡ some g) ⊎ (any (is_grant user g.apartment now) gs ≡ true)
unfolding latest_grant later
latest_grant-any user now [] best g e = inl e
latest_grant-any user now (h ∷ gs) best g e = ground (
  arith,
  latest_grant-any user now gs (if h.user == user && is_active now h then later best h else best) g
      e,
)

reach_by :
    (user a now : ℕ) (db : Tables) (o : Option Membership) (p : Option Grant)
    → preferred user db.memberships ≡ o
    → latest_grant user now db.grants none ≡ p
    → by_membership o (by_grant p) ≡ apartment a
    → any (is_membership user a) db.memberships || any (is_grant user a now) db.grants ≡ true
reach_by user a now db (some m) p eo ep e = ground (arith, preferred-any user db.memberships m)
reach_by user a now db none (some g) eo ep e =
    ground (arith, latest_grant-any user now db.grants none g)
reach_by user a now db none none eo ep e = cc

-- A signed-in user is only ever served the registry of an apartment that a membership of that user
-- names, or a grant of that user that is not revoked and within its time.
pub registry_or_error_reach :
    (db : Tables) (user now a : ℕ)
    → registry_or_error db (some user) now ≡ apartment a
    → any (is_membership user a) db.memberships || any (is_grant user a now) db.grants ≡ true
unfolding registry_or_error
registry_or_error_reach db user now a e = reach_by user a now db _ _ refl refl e
