-- ===== src/Accounts/Chosen.antt =====
-- The apartment that a user selects, and the apartments that are created.
use phone_app.Base.{
  ℕ, ◌+◌, ◌≤◌, ◌≡◌, ◌⊎◌, inl, inr, refl, ap, true, false, Option, none, some, List, [], ◌∷◌, ◌++◌,
  arith, if◌then◌else◌, Bool-cases, Text, eqb,
}
use phone_app.Base.{any, strip, eqb_sound}
use phone_app.Access.{
  Membership, Grant, apartment, resolve_membership, save_membership, clear_defaults, write_row,
  default_of_user, preferred, registry_or_error,
}
use phone_app.Accounts.{
  User, Apartment, Db, ok, is_apartment_in_scope, owned_buildings, is_staff_or_building_owner,
}
use phone_app.Accounts.Managing.{or_blank}
use phone_app.Accounts.Places.{
  apartment_select, select_found, create_apartment, create_in, building_for,
}
use phone_app.Accounts.Lookup.{resolve_membership-keys}

-- A default row that is saved is the one that is found.
default_of_user-saved :
    (user : ℕ) (m : Membership) (ms : List Membership)
    → m.user ≡ user
    → m.is_default ≡ true
    → default_of_user user (write_row m (clear_defaults user m.pk ms)) ≡ some m
unfolding default_of_user write_row clear_defaults
default_of_user-saved user m [] e d = ground arith
default_of_user-saved user m (n ∷ ms) e d = ground (arith, default_of_user-saved user m ms)

select_found-preferred :
    {W : Type 0} (user pk : ℕ) (found : Option Membership) (db : Db W)
    → resolve_membership user pk db.memberships ≡ found
    → (select_found found db).0 ≡ ok
    → (m : Membership) × (m.apartment ≡ pk)
      × (preferred user (select_found found db).1.memberships ≡ some m)
unfolding select_found save_membership preferred
select_found-preferred user pk none db e h = cc
select_found-preferred user pk (some n) db e h =
    let keys = resolve_membership-keys user pk n db.memberships e in
    let m = record n { is_default = true } in
    (m, keys.1, ground (arith, default_of_user-saved user m db.memberships))

-- An apartment that a user selects is the one that the user's next requests reach: once
-- `apartment_select` answers 200, the resolution of the user's apartment gives it, whatever other
-- memberships and grants there are.
pub apartment_select-registry_or_error :
    {W : Type 0} (caller : User) (pk now : ℕ) (apartments : List ℕ) (grants : List Grant)
    (db : Db W)
    → (apartment_select caller pk db).0 ≡ ok
    → registry_or_error
        (record {
          apartments = apartments;
          memberships = (apartment_select caller pk db).1.memberships;
          grants = grants;
        })
        (some caller.pk)
        now
      ≡ apartment pk
unfolding registry_or_error apartment_select
apartment_select-registry_or_error caller pk now apartments grants db h =
    let (m, at_pk, found) =
      select_found-preferred caller.pk pk (resolve_membership caller.pk pk db.memberships) db refl
        h in
    rw found (ap apartment at_pk)

-- How many apartments have a name.
unfoldable pub count_name : Text → List Apartment → ℕ
count_name name [] = 0
count_name name (a ∷ rest) = (if eqb a.name name then 1 else 0) + count_name name rest

count_name-append :
    (name : Text) (xs ys : List Apartment)
    → count_name name (xs ++ ys) ≡ count_name name xs + count_name name ys
unfolding count_name
count_name-append name [] ys = omega arith
count_name-append name (a ∷ xs) ys = omega (arith, count_name-append name xs ys)

count_name-none :
    (name : Text) (xs : List Apartment)
    → any (λ a. eqb a.name name) xs ≡ false
    → count_name name xs ≡ 0
unfolding count_name
count_name-none name [] h = refl
count_name-none name (a ∷ xs) h = ground (arith, count_name-none name xs)

-- The table is as before, or has one more apartment, in a building of the caller if that is no staff.
abbrev pub IsGrown : {W : Type 0} → User → Db W → List Apartment → Type 0
IsGrown caller db apartments =
    (apartments ≡ db.apartments)
    ⊎ ((a : Apartment) × (apartments ≡ db.apartments ++ a ∷ [])
        × (is_apartment_in_scope caller db a ≡ true)
        × (any (λ b. eqb b.name a.name) db.apartments ≡ false))

building_for-in_scope :
    {W : Type 0} (caller : User) (given : Text) (b : Text) (a : Apartment) (db : Db W)
    → building_for caller.is_staff given (owned_buildings caller.pk db.building_memberships)
      ≡ some b
    → a.building ≡ b
    → is_apartment_in_scope caller db a ≡ true
unfolding building_for is_apartment_in_scope
building_for-in_scope caller given b a db h e = ground arith

create_in-IsGrown :
    {W : Type 0} (pk : ℕ) (caller : User) (name floor given : Text) (db : Db W)
    → any (λ b. eqb b.name name) db.apartments ≡ false
    → let where_to =
        building_for caller.is_staff given (owned_buildings caller.pk db.building_memberships) in
      IsGrown caller db (create_in pk name floor where_to db).1.apartments
unfolding create_in
create_in-IsGrown pk caller name floor given db fresh =
    go (building_for caller.is_staff given (owned_buildings caller.pk db.building_memberships)) refl
  where
    go :
        (found : Option Text)
        → building_for caller.is_staff given (owned_buildings caller.pk db.building_memberships)
          ≡ found
        → IsGrown caller db (create_in pk name floor found db).1.apartments
    go none e = inl refl
    go (some b) e =
        let a : Apartment = record { pk = pk; name = name; building = b; floor = floor } in
        inr (a, refl, building_for-in_scope caller given b a db e refl, fresh)

create_apartment-IsGrown :
    {W : Type 0} (pk : ℕ) (caller : User) (name building floor : Option Text) (db : Db W)
    → IsGrown caller db (create_apartment pk caller name building floor db).1.apartments
unfolding create_apartment
create_apartment-IsGrown pk caller name building floor db =
    elim (Bool-cases (is_staff_or_building_owner caller db)) [
      | inr denied ↦ rw denied (inl refl)
      | inl allowed ↦ rw allowed (elim (Bool-cases (eqb (strip (or_blank name)) [])) [
        | inl empty ↦ rw empty (inl refl)
        | inr full ↦
            rw full
              (elim (Bool-cases (any (λ a. eqb a.name (strip (or_blank name))) db.apartments)) [
                | inl taken ↦ rw taken (inl refl)
                | inr fresh ↦ rw fresh (
                    create_in-IsGrown pk caller (strip (or_blank name)) (strip (or_blank floor))
                      (strip (or_blank building)) db fresh)
              ])
      ])
    ]

IsGrown-count_name :
    {W : Type 0} (caller : User) (db : Db W) (apartments : List Apartment)
    → IsGrown caller db apartments
    → ((name : Text) → count_name name db.apartments ≤ 1)
    → (name : Text) → count_name name apartments ≤ 1
unfolding count_name
IsGrown-count_name caller db apartments (inl same) h name = rw same (h name)
IsGrown-count_name caller db apartments (inr (a, grown, scope, fresh)) h name = rw grown (
    ground (
      arith,
      h name,
      count_name-append name db.apartments (a ∷ []),
      count_name-none a.name db.apartments fresh,
      eqb_sound a.name name,
    ))

-- The creation of an apartment adds at most one row, whose building is in the caller's scope and whose name
-- no row had before; where no name stood twice, none does afterwards.
pub create_apartment-count_name :
    {W : Type 0} (pk : ℕ) (caller : User) (name building floor : Option Text) (db : Db W)
    → ((n : Text) → count_name n db.apartments ≤ 1)
    → let db' = (create_apartment pk caller name building floor db).1 in
      IsGrown caller db db'.apartments × ((n : Text) → count_name n db'.apartments ≤ 1)
create_apartment-count_name pk caller name building floor db h =
    let grown = create_apartment-IsGrown pk caller name building floor db in
    (
      grown,
      IsGrown-count_name caller db (create_apartment pk caller name building floor db).1.apartments
          grown h,
    )
