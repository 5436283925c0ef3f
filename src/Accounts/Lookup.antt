-- ===== src/Accounts/Lookup.antt =====
-- The keys of the rows that are found.
use phone_app.Base.{ℕ, ◌≡◌, some, List, [], ◌∷◌, arith}
use phone_app.Access.{Membership, resolve_membership}
use phone_app.Accounts.{User, Db, find_user, user_in_scope}

pub find_user-pk : (pk : ℕ) (us : List User) (u : User) → find_user pk us ≡ some u → u.pk ≡ pk
unfolding find_user
find_user-pk pk [] u h = cc
find_user-pk pk (v ∷ us) u h = ground (arith, find_user-pk pk us u)

pub user_in_scope-pk :
    {W : Type 0} (caller u : User) (pk : ℕ) (db : Db W)
    → user_in_scope caller pk db ≡ some u
    → u.pk ≡ pk
unfolding user_in_scope
user_in_scope-pk caller u pk db h = ground (arith, find_user-pk pk db.users u)

pub resolve_membership-keys :
    (user apartment : ℕ) (m : Membership) (ms : List Membership)
    → resolve_membership user apartment ms ≡ some m
    → (m.user ≡ user) × (m.apartment ≡ apartment)
unfolding resolve_membership
resolve_membership-keys user apartment m [] h = cc
resolve_membership-keys user apartment m (n ∷ ms) h =
    ground (arith, resolve_membership-keys user apartment m ms)
