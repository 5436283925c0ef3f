-- ===== src/Accounts/Revoked.antt =====
-- Which refresh tokens outlive the revocation of a user's sessions.
use phone_app.Base.{
  ℕ, ◌+◌, ◌≡◌, ◌≢◌, ◌⊎◌, inl, inr, refl, sym, ap, ◌∙◌, Bool, true, false, ◌||◌, Option, none, some,
  List, [], ◌∷◌, arith, if◌then◌else◌, Option-cases, Text, eqb, length,
}
use phone_app.Accounts.{
  User, Session, Db, Answer, ok, find_user, is_staff_or_building_owner, user_in_scope, forbidden,
}
use phone_app.Accounts.Sessions.{
  Jwt, Client, write_session, record_session, session_row, issue, rotate, refresh_token,
  revoke_each, force_logout, live_sessions, login,
}
use phone_app.Accounts.Managing.{
  Auth, user_disable, disable_found, user_reset_password, reset_found, set_new_password,
  user_force_logout, logout_found, or_blank,
}
use phone_app.Accounts.Lookup.{user_in_scope-pk}
use phone_app.Accounts.Revoking.{
  JwtLaws, is_listed, revoke_each-live, revoke_each-no_new, revoke_each-refused, revoke_each-kept,
}

-- The three views that end the sessions of a user.
pub data Ending : Type 0 where
  disabling : Ending
  resetting : Option Text → Ending
  forcing : Ending

-- A session with this jti has a row.
unfoldable pub has_row : Text → List Session → Bool
has_row jti [] = false
has_row jti (s ∷ rest) = eqb s.jti jti || has_row jti rest

write_session-live :
    (row : Session) (ss : List Session)
    → has_row row.jti ss ≡ false
    → row.revoked ≡ false
    → length (live_sessions row.user (write_session row ss))
      ≡ length (live_sessions row.user ss) + 1
unfolding has_row live_sessions write_session
write_session-live row [] h live = ground arith
write_session-live row (s ∷ rest) h live = ground (arith, write_session-live row rest)

module _ {W : Type 0} (jwt : Jwt W) (auth : Auth) where
  unfoldable pub end_sessions : Ending → User → ℕ → Db W → Answer × Db W
  unfolding user_disable user_reset_password user_force_logout
  end_sessions disabling caller pk db = user_disable jwt auth caller pk db
  end_sessions (resetting password) caller pk db =
      user_reset_password jwt auth caller pk password db
  end_sessions forcing caller pk db = user_force_logout jwt auth caller pk db

  -- Sessions and tokens as `force_logout` leaves them.
  abbrev pub IsEnded : ℕ → Db W → Db W → Type 0
  IsEnded pk db db' =
      (db'.sessions ≡ (revoke_each jwt pk db.sessions db.tokens).1)
      × (db'.tokens ≡ (revoke_each jwt pk db.sessions db.tokens).2)

  disable_found-IsEnded :
      (caller : User) (user : Option User) (pk : ℕ) (db : Db W)
      → user_in_scope caller pk db ≡ user
      → (disable_found jwt auth caller user db).0 ≡ ok
      → IsEnded pk db (disable_found jwt auth caller user db).1
  unfolding disable_found force_logout
  disable_found-IsEnded caller none pk db found h = cc
  disable_found-IsEnded caller (some user) pk db found h =
      ground (arith, user_in_scope-pk caller user pk db)

  set_new_password-IsEnded :
      (user : User) (password : Text) (pk : ℕ) (db : Db W)
      → user.pk ≡ pk
      → (set_new_password jwt auth user password db).0 ≡ ok
      → IsEnded pk db (set_new_password jwt auth user password db).1
  unfolding set_new_password force_logout
  set_new_password-IsEnded user [] pk db e h = cc
  set_new_password-IsEnded user (c ∷ cs) pk db e h = ground arith

  reset_found-IsEnded :
      (caller : User) (user : Option User) (password : Option Text) (pk : ℕ) (db : Db W)
      → user_in_scope caller pk db ≡ user
      → (reset_found jwt auth user password db).0 ≡ ok
      → IsEnded pk db (reset_found jwt auth user password db).1
  unfolding reset_found
  reset_found-IsEnded caller none password pk db found h = cc
  reset_found-IsEnded caller (some user) password pk db found h =
      set_new_password-IsEnded user (or_blank password) pk db
        (user_in_scope-pk caller user pk db found) h

  logout_found-IsEnded :
      (caller : User) (user : Option User) (pk : ℕ) (db : Db W)
      → user_in_scope caller pk db ≡ user
      → (logout_found jwt auth user db).0 ≡ ok
      → IsEnded pk db (logout_found jwt auth user db).1
  unfolding logout_found force_logout
  logout_found-IsEnded caller none pk db found h = cc
  logout_found-IsEnded caller (some user) pk db found h =
      ground (arith, user_in_scope-pk caller user pk db)

  behind_guard :
      (pk : ℕ) (db : Db W) (allowed : Bool) (r : Answer × Db W)
      → (r.0 ≡ ok → IsEnded pk db r.1)
      → (if allowed then r else (forbidden, db)).0 ≡ ok
      → IsEnded pk db (if allowed then r else (forbidden, db)).1
  behind_guard pk db true r f h = f h
  behind_guard pk db false r f h = cc

  end_sessions-IsEnded :
      (ending : Ending) (caller : User) (pk : ℕ) (db : Db W)
      → (end_sessions ending caller pk db).0 ≡ ok
      → IsEnded pk db (end_sessions ending caller pk db).1
  unfolding end_sessions
  end_sessions-IsEnded disabling caller pk db h =
      let allowed = is_staff_or_building_owner caller db in
      let found = user_in_scope caller pk db in
      behind_guard pk db allowed (disable_found jwt auth caller found db)
        (disable_found-IsEnded caller found pk db refl) h
  end_sessions-IsEnded (resetting password) caller pk db h =
      let allowed = is_staff_or_building_owner caller db in
      let found = user_in_scope caller pk db in
      behind_guard pk db allowed (reset_found jwt auth found password db)
        (reset_found-IsEnded caller found password pk db refl) h
  end_sessions-IsEnded forcing caller pk db h =
      let allowed = is_staff_or_building_owner caller db in
      let found = user_in_scope caller pk db in
      behind_guard pk db allowed (logout_found jwt auth found db)
        (logout_found-IsEnded caller found pk db refl) h

  module _ (laws : JwtLaws jwt) where
    refresh_token-refused :
        (accepts : Session → Bool) (n : ℕ) (client : Client) (t : Text) (db : Db W)
        → jwt.check_token t db.tokens ≡ none
        → (refresh_token jwt accepts n client t db).0 ≢ ok
    unfolding refresh_token
    refresh_token-refused accepts n client [] db h = λ e. cc
    refresh_token-refused accepts n client (c ∷ cs) db h = rw (refresh_token, h) (λ e. cc)

    refused_later :
        (t j : Text) (u user : ℕ) (ss : List Session) (w : W)
        → is_listed user j ss ≡ true
        → jwt.is_outstanding j w ≡ true
        → jwt.check_token t w ≡ some (j, u)
        → jwt.check_token t (revoke_each jwt user ss w).2 ≡ none
    refused_later t j u user ss w listed out e =
        go (Option-cases (jwt.check_token t (revoke_each jwt user ss w).2))
      where
        go :
            (jwt.check_token t (revoke_each jwt user ss w).2 ≡ none)
              ⊎ ((c : Text × ℕ) × (jwt.check_token t (revoke_each jwt user ss w).2 ≡ some c))
            → jwt.check_token t (revoke_each jwt user ss w).2 ≡ none
        go (inl gone) = gone
        go (inr (c, still)) =
            let same = revoke_each-no_new jwt laws t c user ss w still in
            absurd (revoke_each-refused jwt laws t j u user ss w listed out (still ∙ sym same ∙ e))

    -- A user is disabled, gets a new password or is logged out by force: once the view answers 200, the user
    -- has no live session, and no refresh token that belonged to one, if it was outstanding, can be
    -- exchanged for another.
    pub ended_sessions_are_refused :
        (ending : Ending) (caller : User) (pk : ℕ) (db : Db W)
        → (t j : Text) (u : ℕ) (accepts : Session → Bool) (n : ℕ) (client : Client)
        → (end_sessions ending caller pk db).0 ≡ ok
        → is_listed pk j db.sessions ≡ true
        → jwt.is_outstanding j db.tokens ≡ true
        → jwt.check_token t db.tokens ≡ some (j, u)
        → let db' = (end_sessions ending caller pk db).1 in
          (live_sessions pk db'.sessions ≡ []) × ((refresh_token jwt accepts n client t db').0 ≢ ok)
    ended_sessions_are_refused ending caller pk db t j u accepts n client h listed out e =
        let db' = (end_sessions ending caller pk db).1 in
        let ended = end_sessions-IsEnded ending caller pk db h in
        let gone = ended.1 in
        (
          ap (live_sessions pk) ended.0 ∙ (revoke_each-live jwt pk db.sessions db.tokens).0,
          refresh_token-refused accepts n client t db' (
              ap (jwt.check_token t) ended.1
              ∙ refused_later t j u pk db.sessions db.tokens listed out e),
        )

    unrecorded_issue :
        (accepts : Session → Bool) (n : ℕ) (client : Client) (user : ℕ) (db : Db W)
        → ((s : Session) → s.ip_address ≡ client.ip → accepts s ≡ false)
        → let r = jwt.for_user user db.tokens in
          issue jwt accepts n client user db ≡ (r.0.0, record db { tokens = r.1 })
    unfolding issue record_session
    unrecorded_issue accepts n client user db refuses =
        let row = session_row n client (jwt.for_user user db.tokens).0.1 user in
        rw (refuses row refl) refl

    unrecorded_login :
        (accepts : Session → Bool) (n : ℕ) (client : Client) (username password : Text) (user : ℕ)
        → (db : Db W) → ((s : Session) → s.ip_address ≡ client.ip → accepts s ≡ false)
        → jwt.authenticate username password db.users ≡ some user
        → let r = jwt.for_user user db.tokens in
          login jwt accepts n client username password db
          ≡ (ok, some r.0.0, record db { tokens = r.1 })
    unfolding login
    unrecorded_login accepts n client username password user db refuses auth_ok =
        let issued = unrecorded_issue accepts n client user db refuses in
        rw (login, auth_ok) (ap (λ r. (ok, some r.0, r.1)) issued)

    refresh_token-ok :
        (accepts : Session → Bool) (n : ℕ) (client : Client) (c : ℕ) (cs j : Text) (user : User)
        → (db : Db W) → jwt.check_token (c ∷ cs) db.tokens ≡ some (j, user.pk)
        → find_user user.pk db.users ≡ some user
        → refresh_token jwt accepts n client (c ∷ cs) db
          ≡ rotate jwt accepts n client j (some user) db
    unfolding refresh_token
    refresh_token-ok accepts n client c cs j user db h found = rw (refresh_token, h) (rw found refl)

    -- A login whose session row the database refuses is not ended with the others: the refresh token that
    -- the login gave out can still be exchanged after the user's sessions are revoked.
    pub unrecorded_login_survives :
        (accepts : Session → Bool) (n : ℕ) (client : Client) (username password : Text) (db : Db W)
        → (user : User) (c : ℕ) (cs : Text)
        → ((s : Session) → s.ip_address ≡ client.ip → accepts s ≡ false)
        → jwt.authenticate username password db.users ≡ some user.pk
        → find_user user.pk db.users ≡ some user
        → (jwt.for_user user.pk db.tokens).0.0 ≡ c ∷ cs
        → is_listed user.pk (jwt.for_user user.pk db.tokens).0.1 db.sessions ≡ false
        → let (answer, token, db1) = login jwt accepts n client username password db in
          (answer ≡ ok)
          × (token ≡ some (c ∷ cs))
          × ((refresh_token jwt accepts n client (c ∷ cs) (force_logout jwt user.pk db1).1).0 ≡ ok)
    unfolding force_logout rotate
    unrecorded_login_survives accepts n client username password db user c cs refuses auth_ok found
          token fresh =
        let w = (jwt.for_user user.pk db.tokens).1 in
        let jti = (jwt.for_user user.pk db.tokens).0.1 in
        let kept =
          revoke_each-kept jwt laws (c ∷ cs) jti user.pk user.pk db.sessions w fresh
            (ap (λ t. jwt.check_token t w) (sym token) ∙ laws.issued_law user.pk db.tokens) in
        let db2 = (force_logout jwt user.pk (record db { tokens = w })).1 in
        rw (unrecorded_login accepts n client username password user.pk db refuses auth_ok) (
          refl,
          ap some token,
          ap (λ r. r.0) (refresh_token-ok accepts n client c cs jti user db2 kept found),
        )

    -- Every exchange of a refresh token leaves the session of the old token among the live ones of its
    -- user, and adds one: after it the user is shown with one more device.
    pub refresh_token-live :
        (accepts : Session → Bool) (n : ℕ) (client : Client) (c : ℕ) (cs j : Text) (user : User)
        → (db : Db W) → ((s : Session) → accepts s ≡ true)
        → jwt.check_token (c ∷ cs) db.tokens ≡ some (j, user.pk)
        → find_user user.pk db.users ≡ some user
        → has_row (jwt.for_user user.pk (jwt.blacklist j db.tokens)).0.1 db.sessions ≡ false
        → let (answer, token, db') = refresh_token jwt accepts n client (c ∷ cs) db in
          (answer ≡ ok)
          × (length (live_sessions user.pk db'.sessions)
              ≡ length (live_sessions user.pk db.sessions) + 1)
    unfolding rotate issue record_session
    refresh_token-live accepts n client c cs j user db takes h found fresh =
        let jti = (jwt.for_user user.pk (jwt.blacklist j db.tokens)).0.1 in
        let row = session_row n client jti user.pk in
        rw (refresh_token-ok accepts n client c cs j user db h found)
          (refl, rw (takes row) (write_session-live row db.sessions fresh refl))
