-- ===== src/Accounts/Sessions.antt =====
-- find_device/auth_views.py: logging in and out, the refresh tokens and the sessions that describe them,
-- and `_force_logout` of find_device/user_management_views.py.
use phone_app.Base.{
  ℕ, ◌+◌, Bool, true, false, not, ◌&&◌, Option, none, some, List, [], ◌∷◌, ◌==◌, if◌then◌else◌,
  Text, eqb,
}
use phone_app.Base.{take}
use phone_app.Accounts.{
  User, Session, Db, Answer, ok, invalid_param, token_invalid, not_found, server_error, find_user,
}

-- django.contrib.auth and SimpleJWT with its blacklist app: `authenticate` (active users only),
-- `RefreshToken.for_user` with the token and its jti, `RefreshToken(token)` with the jti and the user id
-- or a TokenError, `OutstandingToken.filter(jti).first()`, the blacklisting of an outstanding token, and
-- what the deletion of a user does to its tables.
pub record Jwt (W : Type 0) : Type 0 where
  pub authenticate : Text → Text → List User → Option ℕ
  pub for_user : ℕ → W → (Text × Text) × W
  pub check_token : Text → W → Option (Text × ℕ)
  pub is_outstanding : Text → W → Bool
  pub blacklist : Text → W → W
  pub delete_user : ℕ → W → W

-- The headers that describe the client, and `_client_ip`.
pub record Client : Type 0 where
  pub device_name : Text
  pub device_os : Text
  pub user_agent : Text
  pub app_version : Text
  pub ip : Option Text

-- `a or b` on texts.
abbrev pub or_text : Text → Text → Text
or_text [] t = t
or_text (c ∷ s) t = c ∷ s

unfoldable pub write_session : Session → List Session → List Session
write_session s [] = s ∷ []
write_session s (t ∷ ts) =
    if eqb t.jti s.jti
    then record s { pk = t.pk; revoked = t.revoked } ∷ ts
    else t ∷ write_session s ts

-- Sessions of a user that are not revoked.
abbrev pub is_live_of : ℕ → Session → Bool
is_live_of user s = s.user == user && not s.revoked

abbrev pub revoke_row : Session → Session
revoke_row s = record s { revoked = true }

-- `.filter(jti=jti).update(revoked=True)`
unfoldable pub revoke_jti : Text → List Session → List Session
revoke_jti jti [] = []
revoke_jti jti (s ∷ rest) = (if eqb s.jti jti then revoke_row s else s) ∷ revoke_jti jti rest

unfoldable pub find_session : ℕ → ℕ → List Session → Option Session
find_session pk user [] = none
find_session pk user (s ∷ rest) =
    if s.pk == pk && s.user == user then some s else find_session pk user rest

-- The rows of `session_list` and `user_sessions`, and `active_sessions` of a user's summary.
unfoldable pub live_sessions : ℕ → List Session → List Session
live_sessions user [] = []
live_sessions user (s ∷ rest) =
    if is_live_of user s then s ∷ live_sessions user rest else live_sessions user rest

-- The columns of `update_or_create` in `_record_session`; `pk` is the id that a new row gets.
abbrev pub session_row : ℕ → Client → Text → ℕ → Session
session_row pk client jti user = record {
  pk = pk;
  jti = jti;
  user = user;
  device_name = take 100 client.device_name;
  os = or_text (take 50 client.device_os) (take 50 client.user_agent);
  app_version = take 20 client.app_version;
  ip_address = client.ip;
  revoked = false;
}

-- `_record_session`: `accepts` says whether the database takes the row. An error is logged, and nothing
-- else.
unfoldable pub record_session :
    {W : Type 0} → (Session → Bool) → ℕ → Client → Text → ℕ → Db W → Db W
unfolding write_session
record_session accepts pk client jti user db =
    let row = session_row pk client jti user in
    if accepts row then record db { sessions = write_session row db.sessions } else db

module _ {W : Type 0} (jwt : Jwt W) where
  -- A new token with its session.
  unfoldable pub issue : (Session → Bool) → ℕ → Client → ℕ → Db W → Text × Db W
  unfolding record_session
  issue accepts pk client user db =
      let ((token, jti), w) = jwt.for_user user db.tokens in
      (token, record_session accepts pk client jti user (record db { tokens = w }))

  -- `login`, with the refresh token of the answer.
  unfoldable pub login :
      (Session → Bool) → ℕ → Client → Text → Text → Db W → Answer × Option Text × Db W
  unfolding issue
  login accepts pk client username password db =
      elim (jwt.authenticate username password db.users) [
        | none ↦ (token_invalid, none, db)
        | some user ↦ let (token, db') = issue accepts pk client user db in (ok, some token, db')
      ]

  -- `refresh_token`: the old token is blacklisted before the new one is made. A user that is gone is the
  -- branch for any other exception.
  unfoldable pub rotate :
      (Session → Bool) → ℕ → Client → Text → Option User → Db W → Answer × Option Text × Db W
  unfolding issue
  rotate accepts pk client jti none db = (server_error, none, db)
  rotate accepts pk client jti (some found) db =
      let (token, db') =
        issue accepts pk client found.pk (record db { tokens = jwt.blacklist jti db.tokens }) in
      (ok, some token, db')

  unfoldable pub refresh_token :
      (Session → Bool) → ℕ → Client → Text → Db W → Answer × Option Text × Db W
  unfolding rotate find_user
  refresh_token accepts pk client [] db = (invalid_param, none, db)
  refresh_token accepts pk client (c ∷ cs) db = elim (jwt.check_token (c ∷ cs) db.tokens) [
    | none ↦ (token_invalid, none, db)
    | some claims ↦ rotate accepts pk client claims.0 (find_user claims.1 db.users) db
  ]

  -- `logout`: a token that is refused counts as logged out.
  unfoldable pub logout : Text → Db W → Answer × Db W
  unfolding revoke_jti
  logout [] db = (invalid_param, db)
  logout (c ∷ cs) db = elim (jwt.check_token (c ∷ cs) db.tokens) [
    | none ↦ (ok, db)
    | some claims ↦ (
      ok,
      record db {
        sessions = revoke_jti claims.0 db.sessions;
        tokens = jwt.blacklist claims.0 db.tokens;
      },
    )
  ]

  -- The blacklisting of a session's token, where it is outstanding.
  unfoldable pub blacklist_session : Text → W → W
  blacklist_session jti w = if jwt.is_outstanding jti w then jwt.blacklist jti w else w

  -- The loop of `_force_logout` and `session_revoke_all`, with its count.
  unfoldable pub revoke_each : ℕ → List Session → W → ℕ × List Session × W
  unfolding blacklist_session
  revoke_each user [] w = (0, [], w)
  revoke_each user (s ∷ rest) w =
      let live = is_live_of user s in
      let (n, sessions, w') =
        revoke_each user rest (if live then blacklist_session s.jti w else w) in
      ((if live then n + 1 else n), (if live then revoke_row s else s) ∷ sessions, w')

  -- `_force_logout`
  unfoldable pub force_logout : ℕ → Db W → ℕ × Db W
  unfolding revoke_each
  force_logout user db =
      let (n, sessions, w) = revoke_each user db.sessions db.tokens in
      (n, record db { sessions = sessions; tokens = w })

  -- `session_revoke_all`
  unfoldable pub session_revoke_all : User → Db W → Answer × Db W
  unfolding force_logout
  session_revoke_all caller db = (ok, (force_logout caller.pk db).1)

  -- `session_revoke`
  unfoldable pub session_revoke : User → ℕ → Db W → Answer × Db W
  unfolding find_session blacklist_session
  session_revoke caller pk db = elim (find_session pk caller.pk db.sessions) [
    | none ↦ (not_found, db)
    | some s ↦ (
      ok,
      record db {
        sessions = revoke_jti s.jti db.sessions;
        tokens = blacklist_session s.jti db.tokens;
      },
    )
  ]
