-- ===== src/Accounts/Managing.antt =====
-- find_device/user_management_views.py: the users that an administrator manages, and `register` of
-- find_device/auth_views.py.
use phone_app.Base.{
  ℕ, Bool, true, false, not, ◌&&◌, ◌||◌, Option, none, some, List, [], ◌∷◌, ◌++◌, ltb, ◌==◌,
  if◌then◌else◌, Text, eqb, length,
}
use phone_app.Base.{any, strip, pop_at}
use phone_app.Access.{Membership}
use phone_app.Accounts.{
  User, Session, Db, Answer, ok, created, invalid_param, weak_password, forbidden, not_found,
  duplicate, save_user, is_staff_or_building_owner, user_in_scope,
}
use phone_app.Accounts.Sessions.{Jwt, Client, force_logout, issue}

-- django.contrib.auth: whether `validate_password` passes, what `set_password` stores, and the row of
-- `create_user` with its id.
pub record Auth : Type 0 where
  pub validate_password : Text → Bool
  pub make_password : Text → Text
  pub create_user : ℕ → Text → Text → Text → Text → User

-- The text of a body field, `or ""`.
abbrev pub or_blank : Option Text → Text
or_blank none = []
or_blank (some t) = t

unfoldable pub drop_user : ℕ → List User → List User
drop_user pk [] = []
drop_user pk (u ∷ us) = if u.pk == pk then drop_user pk us else u ∷ drop_user pk us

unfoldable pub drop_memberships : ℕ → List Membership → List Membership
drop_memberships user [] = []
drop_memberships user (m ∷ ms) =
    if m.user == user then drop_memberships user ms else m ∷ drop_memberships user ms

unfoldable pub drop_sessions : ℕ → List Session → List Session
drop_sessions user [] = []
drop_sessions user (s ∷ rest) =
    if s.user == user then drop_sessions user rest else s ∷ drop_sessions user rest

module _ {W : Type 0} (jwt : Jwt W) (auth : Auth) where
  -- `user_disable`
  unfoldable pub disable_found : User → Option User → Db W → Answer × Db W
  disable_found caller none db = (not_found, db)
  disable_found caller (some user) db = if user.pk == caller.pk then (invalid_param, db) else (
    ok,
    (force_logout jwt user.pk
        (record db { users = save_user (record user { is_active = false }) db.users })).1,
  )

  unfoldable pub user_disable : User → ℕ → Db W → Answer × Db W
  unfolding disable_found
  user_disable caller pk db =
      if is_staff_or_building_owner caller db
      then disable_found caller (user_in_scope caller pk db) db
      else (forbidden, db)

  -- `user_enable`
  unfoldable pub enable_found : Option User → Db W → Answer × Db W
  enable_found none db = (not_found, db)
  enable_found (some user) db =
      (ok, record db { users = save_user (record user { is_active = true }) db.users })

  unfoldable pub user_enable : User → ℕ → Db W → Answer × Db W
  unfolding enable_found
  user_enable caller pk db =
      if is_staff_or_building_owner caller db
      then enable_found (user_in_scope caller pk db) db
      else (forbidden, db)

  -- `user_reset_password`
  unfoldable pub set_new_password : User → Text → Db W → Answer × Db W
  set_new_password user [] db = (invalid_param, db)
  set_new_password user (c ∷ cs) db =
      if auth.validate_password (c ∷ cs)
      then (
        ok,
        (force_logout jwt user.pk (record db {
          users = save_user (record user { password = auth.make_password (c ∷ cs) }) db.users;
        })).1,
      )
      else (weak_password, db)

  unfoldable pub reset_found : Option User → Option Text → Db W → Answer × Db W
  unfolding set_new_password
  reset_found none new_password db = (not_found, db)
  reset_found (some user) new_password db = set_new_password user (or_blank new_password) db

  unfoldable pub user_reset_password : User → ℕ → Option Text → Db W → Answer × Db W
  unfolding reset_found
  user_reset_password caller pk new_password db =
      if is_staff_or_building_owner caller db
      then reset_found (user_in_scope caller pk db) new_password db
      else (forbidden, db)

  -- `user_force_logout`
  unfoldable pub logout_found : Option User → Db W → Answer × Db W
  logout_found none db = (not_found, db)
  logout_found (some user) db = (ok, (force_logout jwt user.pk db).1)

  unfoldable pub user_force_logout : User → ℕ → Db W → Answer × Db W
  unfolding logout_found
  user_force_logout caller pk db =
      if is_staff_or_building_owner caller db
      then logout_found (user_in_scope caller pk db) db
      else (forbidden, db)

  -- `user_detail` with DELETE: the rows that point to the user go with it.
  unfoldable pub delete_found : User → Option User → Db W → Answer × Db W
  delete_found caller none db = (not_found, db)
  delete_found caller (some user) db = if user.pk == caller.pk then (invalid_param, db) else (
    ok,
    record db {
      users = drop_user user.pk db.users;
      memberships = drop_memberships user.pk db.memberships;
      building_memberships = pop_at user.pk db.building_memberships;
      sessions = drop_sessions user.pk db.sessions;
      tokens = jwt.delete_user user.pk db.tokens;
    },
  )

  unfoldable pub user_delete : User → ℕ → Db W → Answer × Db W
  unfolding delete_found
  user_delete caller pk db =
      if is_staff_or_building_owner caller db
      then delete_found caller (user_in_scope caller pk db) db
      else (forbidden, db)

  -- `register`, with the refresh token of the answer; `pk` and `session` are the ids of the new rows.
  unfoldable pub create_account :
      (Session → Bool)
      → ℕ
      → ℕ
      → Client
      → Text
      → Text
      → Text
      → Text
      → Db W
      → Answer × Option Text × Db W
  create_account accepts pk session client username password email first_name db =
      let user = auth.create_user pk username password email first_name in
      let (token, db') =
        issue jwt accepts session client user.pk (record db { users = db.users ++ user ∷ [] }) in
      (created, some token, db')

  unfoldable pub register :
      (Session → Bool)
      → ℕ
      → ℕ
      → Client
      → User
      → Option Text
      → Option Text
      → Option Text
      → Option Text
      → Db W
      → Answer × Option Text × Db W
  unfolding create_account
  register accepts pk session client caller username password email first_name db =
      let name = strip (or_blank username) in
      let mail = strip (or_blank email) in
      if not caller.is_staff
      then (forbidden, none, db)
      else if eqb name [] || (eqb (or_blank password) [] || ltb (length name) 3)
      then (invalid_param, none, db)
      else if any (λ u. eqb u.username name) db.users
          || (not (eqb mail []) && any (λ u. eqb u.email mail) db.users)
      then (duplicate, none, db)
      else if auth.validate_password (or_blank password)
      then create_account accepts pk session client name (or_blank password) mail
          (strip (or_blank first_name)) db
      else (weak_password, none, db)
