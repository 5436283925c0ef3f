-- ===== src/Accounts/Scoped.antt =====
-- Which users an administrator's call can reach.
use phone_app.Base.{
  ℕ, ◌≡◌, ◌≢◌, ◌⊎◌, inl, inr, refl, ◌∙◌, true, false, Option, none, some, List, [], ◌∷◌, arith,
  ◌==◌, if◌then◌else◌, Bool-cases, Text,
}
use phone_app.Accounts.{
  User, Session, Db, Answer, ok, forbidden, not_found, find_user, save_user,
  is_staff_or_building_owner, is_user_in_scope, user_in_scope,
}
use phone_app.Accounts.Sessions.{Jwt, force_logout, live_sessions}
use phone_app.Accounts.Managing.{
  Auth, user_disable, disable_found, user_enable, enable_found, user_reset_password, reset_found,
  set_new_password, user_force_logout, logout_found, user_delete, delete_found, drop_user,
  drop_sessions, or_blank,
}
use phone_app.Accounts.Revoking.{revoke_each-others}
use phone_app.Accounts.Lookup.{user_in_scope-pk}

-- The calls that change one user.
pub data UserCall : Type 0 where
  call_disable call_enable call_force_logout call_delete : UserCall
  call_reset : Option Text → UserCall

find_user-save_user_ne :
    (other : ℕ) (u : User) (us : List User)
    → other ≢ u.pk
    → find_user other (save_user u us) ≡ find_user other us
unfolding find_user save_user
find_user-save_user_ne other u [] ne = refl
find_user-save_user_ne other u (v ∷ us) ne = ground (arith, find_user-save_user_ne other u us)

find_user-drop_user :
    (other pk : ℕ) (us : List User)
    → other ≢ pk
    → find_user other (drop_user pk us) ≡ find_user other us
unfolding find_user drop_user
find_user-drop_user other pk [] ne = refl
find_user-drop_user other pk (v ∷ us) ne = ground (arith, find_user-drop_user other pk us)

live_sessions-drop_sessions :
    (other pk : ℕ) (ss : List Session)
    → other ≢ pk
    → live_sessions other (drop_sessions pk ss) ≡ live_sessions other ss
unfolding live_sessions drop_sessions
live_sessions-drop_sessions other pk [] ne = refl
live_sessions-drop_sessions other pk (s ∷ ss) ne =
    ground (arith, live_sessions-drop_sessions other pk ss)

module _ {W : Type 0} (jwt : Jwt W) (auth : Auth) where
  unfoldable pub user_call : UserCall → User → ℕ → Db W → Answer × Db W
  unfolding user_disable user_enable user_force_logout user_delete user_reset_password
  user_call call_disable caller pk db = user_disable jwt auth caller pk db
  user_call call_enable caller pk db = user_enable jwt auth caller pk db
  user_call call_force_logout caller pk db = user_force_logout jwt auth caller pk db
  user_call call_delete caller pk db = user_delete jwt auth caller pk db
  user_call (call_reset password) caller pk db = user_reset_password jwt auth caller pk password db

  -- The account and the live sessions of a user are as before.
  abbrev pub IsUntouched : ℕ → Db W → Db W → Type 0
  IsUntouched other db db' =
      (find_user other db'.users ≡ find_user other db.users)
      × (live_sessions other db'.sessions ≡ live_sessions other db.sessions)

  logout-IsUntouched :
      (other pk : ℕ) (us : List User) (db : Db W)
      → other ≢ pk
      → find_user other us ≡ find_user other db.users
      → IsUntouched other db (force_logout jwt pk (record db { users = us })).1
  unfolding force_logout
  logout-IsUntouched other pk us db ne same =
      (same, revoke_each-others jwt pk other db.sessions db.tokens ne)

  -- A view reaches the user only in the caller's scope, and no other user.
  abbrev pub Reaches : User → ℕ → ℕ → Db W → Answer × Db W → Type 0
  Reaches caller pk other db r =
      ((is_user_in_scope caller db pk ≡ true) ⊎ ((r.0 ≢ ok) × (r.1 ≡ db)))
      × IsUntouched other db r.1

  found-Reaches :
      (caller : User) (pk other : ℕ) (db : Db W) (f : Option User → Answer × Db W)
      (found : Option User)
      → user_in_scope caller pk db ≡ found
      → f none ≡ (not_found, db)
      → ((u : User) → u.pk ≡ pk → IsUntouched other db (f (some u)).1)
      → Reaches caller pk other db (f found)
  unfolding user_in_scope
  found-Reaches caller pk other db f none e missing touched =
      rw missing (inr (λ p. cc, refl), (refl, refl))
  found-Reaches caller pk other db f (some u) e missing touched =
      (inl (ground arith), touched u (user_in_scope-pk caller u pk db e))

  guarded-Reaches :
      (caller : User) (pk other : ℕ) (db : Db W) (f : Option User → Answer × Db W)
      → f none ≡ (not_found, db)
      → ((u : User) → u.pk ≡ pk → IsUntouched other db (f (some u)).1)
      → Reaches caller pk other db (
          if is_staff_or_building_owner caller db
          then f (user_in_scope caller pk db)
          else (forbidden, db))
  guarded-Reaches caller pk other db f missing touched =
      elim (Bool-cases (is_staff_or_building_owner caller db)) [
        | inl allowed ↦
            rw allowed
              (found-Reaches caller pk other db f (user_in_scope caller pk db) refl missing touched)
        | inr denied ↦ rw denied (inr (λ p. cc, refl), (refl, refl))
      ]

  disable-IsUntouched :
      (caller u : User) (other : ℕ) (db : Db W)
      → other ≢ u.pk
      → IsUntouched other db (disable_found jwt auth caller (some u) db).1
  unfolding disable_found
  disable-IsUntouched caller u other db ne = elim (Bool-cases (u.pk == caller.pk)) [
    | inl self ↦ rw self (refl, refl)
    | inr else_one ↦ rw else_one (
        logout-IsUntouched other u.pk (save_user (record u { is_active = false }) db.users) db ne
          (find_user-save_user_ne other (record u { is_active = false }) db.users ne))
  ]

  reset-IsUntouched :
      (u : User) (other : ℕ) (password : Text) (db : Db W)
      → other ≢ u.pk
      → IsUntouched other db (set_new_password jwt auth u password db).1
  unfolding set_new_password
  reset-IsUntouched u other [] db ne = (refl, refl)
  reset-IsUntouched u other (c ∷ cs) db ne = elim (Bool-cases (auth.validate_password (c ∷ cs))) [
    | inl strong ↦
        let v = record u { password = auth.make_password (c ∷ cs) } in
        rw strong (
          logout-IsUntouched other u.pk (save_user v db.users) db ne
            (find_user-save_user_ne other v db.users ne))
    | inr weak ↦ rw weak (refl, refl)
  ]

  delete-IsUntouched :
      (caller u : User) (other : ℕ) (db : Db W)
      → other ≢ u.pk
      → IsUntouched other db (delete_found jwt auth caller (some u) db).1
  unfolding delete_found
  delete-IsUntouched caller u other db ne = elim (Bool-cases (u.pk == caller.pk)) [
    | inl self ↦ rw self (refl, refl)
    | inr else_one ↦ rw else_one (
      find_user-drop_user other u.pk db.users ne,
      live_sessions-drop_sessions other u.pk db.sessions ne,
    )
  ]

  -- A call that disables, enables, logs out, deletes or gives a new password to a user does so only where
  -- the user is in the caller's scope, and else answers no 200 and changes nothing; in either case the
  -- account and the live sessions of every other user are as before.
  pub user_call-Reaches :
      (call : UserCall) (caller : User) (pk other : ℕ) (db : Db W)
      → other ≢ pk
      → Reaches caller pk other db (user_call call caller pk db)
  unfolding user_call
  user_call-Reaches call_disable caller pk other db ne =
      guarded-Reaches caller pk other db (λ found. disable_found jwt auth caller found db) refl
        (λ u e. disable-IsUntouched caller u other db (λ p. ne (p ∙ e)))
  user_call-Reaches call_enable caller pk other db ne =
      guarded-Reaches caller pk other db (λ found. enable_found jwt auth found db) refl
        (λ u e. (
          find_user-save_user_ne other (record u { is_active = true }) db.users (λ p. ne (p ∙ e)),
          refl,
        ))
  user_call-Reaches call_force_logout caller pk other db ne =
      guarded-Reaches caller pk other db (λ found. logout_found jwt auth found db) refl
        (λ u e. logout-IsUntouched other u.pk db.users db (λ p. ne (p ∙ e)) refl)
  user_call-Reaches call_delete caller pk other db ne =
      guarded-Reaches caller pk other db (λ found. delete_found jwt auth caller found db) refl
        (λ u e. delete-IsUntouched caller u other db (λ p. ne (p ∙ e)))
  user_call-Reaches (call_reset password) caller pk other db ne =
      guarded-Reaches caller pk other db (λ found. reset_found jwt auth found password db) refl
        (λ u e. reset-IsUntouched u other (or_blank password) db (λ p. ne (p ∙ e)))
