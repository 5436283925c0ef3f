-- ===== src/Accounts/Takeover.antt =====
-- What the owner of a building reaches through `user_assign_apartment`.
use phone_app.Base.{
  ℕ, ◌≡◌, ◌≢◌, inl, inr, refl, ap, ◌∙◌, Bool, true, false, ◌&&◌, Option, none, some, List, [], ◌∷◌,
  arith, ◌==◌, if◌then◌else◌, Bool-cases, Text,
}
use phone_app.Base.{any, is_in, is_some}
use phone_app.Json.{boolean}
use phone_app.Access.{
  resident, Membership, resolve_membership, save_membership, clear_defaults, write_row,
}
use phone_app.Accounts.{
  User, Apartment, Db, ok, find_user, find_apartment, save_user, owned_buildings,
  is_staff_or_building_owner, is_apartment_in_scope, apartment_in_scope, is_user_in_scope,
  user_in_scope,
}
use phone_app.Accounts.Lookup.{resolve_membership-keys}
use phone_app.Accounts.Sessions.{Jwt, force_logout}
use phone_app.Accounts.Managing.{Auth, user_reset_password, reset_found, set_new_password}
use phone_app.Accounts.Assigning.{
  Assignment, assigned_row, assign_role, assign_in, assign_found, user_assign_apartment,
  custom_role_of,
}

owned_buildings-any :
    (user : ℕ) (building : Text) (rows : List (ℕ × Text))
    → is_in building (owned_buildings user rows) ≡ true
    → any (λ r. r.0 == user) rows ≡ true
unfolding owned_buildings
owned_buildings-any user building [] h = cc
owned_buildings-any user building ((u, b) ∷ rest) h =
    ground (arith, owned_buildings-any user building rest)

-- The row that is saved is in the table.
any-write_row :
    (p : Membership → Bool) (m : Membership) (ms : List Membership)
    → p m ≡ true
    → any p (write_row m ms) ≡ true
unfolding write_row
any-write_row p m [] h = ground arith
any-write_row p m (n ∷ ms) h = elim (Bool-cases (n.pk == m.pk)) [
  | inl same ↦ rw same (rw h refl)
  | inr other ↦ rw other (ground (arith, any-write_row p m ms h))
]

any-save_membership :
    (p : Membership → Bool) (m : Membership) (ms : List Membership)
    → p m ≡ true
    → any p (save_membership m ms) ≡ true
unfolding save_membership
any-save_membership p m ms h =
    any-write_row p m (if m.is_default then clear_defaults m.user m.pk ms else ms) h

find_user-save_user :
    (pk : ℕ) (u v : User) (us : List User)
    → find_user pk us ≡ some u
    → v.pk ≡ pk
    → find_user pk (save_user v us) ≡ some v
unfolding find_user save_user
find_user-save_user pk u v [] h e = cc
find_user-save_user pk u v (w ∷ us) h e = ground (arith, find_user-save_user pk u v us)

-- A resident of an apartment, and nothing else said.
abbrev pub as_resident : ℕ → Assignment
as_resident apartment = record {
  apartment_id = some apartment;
  role = none;
  custom_role_id = none;
  is_default = boolean false;
}

abbrev pub IsRowOf : ℕ → ℕ → Membership → Type 0
IsRowOf user apartment m = (m.user ≡ user) × (m.apartment ≡ apartment)

module _ {W : Type 0} where
  -- The row that the assignment saves, and the tables afterwards.
  abbrev pub resident_row : ℕ → ℕ → ℕ → Db W → Membership
  resident_row new user apartment db =
      assigned_row new user apartment resident none false
        (resolve_membership user apartment db.memberships)

  abbrev pub with_resident : ℕ → ℕ → ℕ → Db W → Db W
  with_resident new user apartment db = record db {
    memberships = save_membership (resident_row new user apartment db) db.memberships;
  }

  resident_row-keys :
      (new user apartment : ℕ) (db : Db W)
      → IsRowOf user apartment (resident_row new user apartment db)
  unfolding assigned_row
  resident_row-keys new user apartment db =
      go (resolve_membership user apartment db.memberships)
        (λ m e. resolve_membership-keys user apartment m db.memberships e)
    where
      go :
          (old : Option Membership)
          → ((m : Membership) → old ≡ some m → IsRowOf user apartment m)
          → IsRowOf user apartment (assigned_row new user apartment resident none false old)
      go none h = (refl, refl)
      go (some m) h = h m refl

  apartment_in_scope_lem :
      (caller : User) (apartment : Apartment) (db : Db W)
      → is_apartment_in_scope caller db apartment ≡ true
      → find_apartment apartment.pk db.apartments ≡ some apartment
      → apartment_in_scope caller apartment.pk db ≡ some apartment
  unfolding apartment_in_scope
  apartment_in_scope_lem caller apartment db scope found =
      rw (apartment_in_scope, found) (rw scope refl)

  user_assign_apartment-resident :
      (new user : ℕ) (caller : User) (apartment : Apartment) (db : Db W)
      → is_apartment_in_scope caller db apartment ≡ true
      → find_apartment apartment.pk db.apartments ≡ some apartment
      → apartment.pk ≢ 0
      → is_staff_or_building_owner caller db ≡ true
      → is_some (find_user user db.users) ≡ true
      → (user_assign_apartment new caller user (as_resident apartment.pk) db).1
        ≡ with_resident new user apartment.pk db
  unfolding user_assign_apartment assign_found assign_in assign_role custom_role_of
  user_assign_apartment-resident new user caller apartment db scope found pos_pk allowed exists =
      ground (arith, apartment_in_scope_lem caller apartment db scope found)

  with_resident-in_scope :
      (new user : ℕ) (caller : User) (apartment : Apartment) (db : Db W)
      → is_apartment_in_scope caller db apartment ≡ true
      → find_apartment apartment.pk db.apartments ≡ some apartment
      → is_user_in_scope caller (with_resident new user apartment.pk db) user ≡ true
  unfolding is_user_in_scope is_apartment_in_scope
  with_resident-in_scope new user caller apartment db scope found =
      let db' = with_resident new user apartment.pk db in
      let row = resident_row new user apartment.pk db in
      let keys = resident_row-keys new user apartment.pk db in
      let reach : is_some (apartment_in_scope caller row.apartment db') ≡ true =
        ap (λ a. is_some (apartment_in_scope caller a db')) keys.1
        ∙ ap is_some (apartment_in_scope_lem caller apartment db' scope found) in
      let listed =
        any-save_membership
          (λ m. m.user == user && is_some (apartment_in_scope caller m.apartment db')) row
          db.memberships (ground arith) in
      ground arith

-- The owner of a building takes over any account, also one of the staff: after the owner has assigned the
-- user to an apartment of the building, a reset of the user's password to one of the owner's choice is
-- accepted, and that password is the one that is stored.
pub owner_takes_over :
    {W : Type 0} (jwt : Jwt W) (auth : Auth) (new : ℕ) (caller victim : User)
    (apartment : Apartment)
    → (db : Db W) (c : ℕ) (cs : Text)
    → is_in apartment.building (owned_buildings caller.pk db.building_memberships) ≡ true
    → find_apartment apartment.pk db.apartments ≡ some apartment
    → apartment.pk ≢ 0
    → find_user victim.pk db.users ≡ some victim
    → auth.validate_password (c ∷ cs) ≡ true
    → let db1 = (user_assign_apartment new caller victim.pk (as_resident apartment.pk) db).1 in
      let (answer, db2) = user_reset_password jwt auth caller victim.pk (some (c ∷ cs)) db1 in
      (answer ≡ ok)
      × (find_user victim.pk db2.users
          ≡ some (record victim { password = auth.make_password (c ∷ cs) }))
unfolding user_reset_password reset_found set_new_password force_logout user_in_scope
    is_staff_or_building_owner is_apartment_in_scope
owner_takes_over jwt auth new caller victim apartment db c cs owned found pos_pk exists strong =
    let db1 = with_resident new victim.pk apartment.pk db in
    let allowed = owned_buildings-any caller.pk apartment.building db.building_memberships owned in
    let assigned =
      user_assign_apartment-resident new victim.pk caller apartment db (ground arith) found pos_pk
        (ground arith) (ap is_some exists) in
    let scope = with_resident-in_scope new victim.pk caller apartment db (ground arith) found in
    rw assigned (
      ground (
        arith,
        find_user-save_user victim.pk victim
            (record victim { password = auth.make_password (c ∷ cs) }) db.users,
      ))
