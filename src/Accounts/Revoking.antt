-- ===== src/Accounts/Revoking.antt =====
-- What the revocation of sessions does to the refresh tokens.
use phone_app.Base.{
  ℕ, ◌≡◌, ◌≢◌, inl, inr, refl, ◌∙◌, Bool, true, false, ◌&&◌, ◌||◌, some, List, [], ◌∷◌, arith,
  if◌then◌else◌, Bool-cases, Text, eqb, length,
}
use phone_app.Base.{eqb_sound}
use phone_app.Accounts.{Session}
use phone_app.Accounts.Sessions.{Jwt, is_live_of, blacklist_session, revoke_each, live_sessions}

-- What SimpleJWT documents: a blacklisted token is refused and no other is, blacklisting makes no token
-- valid and drops no outstanding row, and a token from `for_user` is valid.
pub record JwtLaws {W : Type 0} (jwt : Jwt W) : Type 0 where
  pub blacklist_law :
      (t j : Text) (u : ℕ) (w : W) → jwt.check_token t (jwt.blacklist j w) ≢ some (j, u)
  pub no_new_law :
      (t j : Text) (c : Text × ℕ) (w : W)
      → jwt.check_token t (jwt.blacklist j w) ≡ some c
      → jwt.check_token t w ≡ some c
  pub others_law :
      (t i j : Text) (u : ℕ) (w : W)
      → jwt.check_token t w ≡ some (i, u)
      → eqb i j ≡ false
      → jwt.check_token t (jwt.blacklist j w) ≡ some (i, u)
  pub outstanding_law :
      (i j : Text) (w : W) → jwt.is_outstanding i (jwt.blacklist j w) ≡ jwt.is_outstanding i w
  pub issued_law :
      (u : ℕ) (w : W)
      → jwt.check_token (jwt.for_user u w).0.0 (jwt.for_user u w).1
        ≡ some ((jwt.for_user u w).0.1, u)

-- The jti is that of a live session of a user.
unfoldable pub is_listed : ℕ → Text → List Session → Bool
is_listed user jti [] = false
is_listed user jti (s ∷ rest) = (is_live_of user s && eqb s.jti jti) || is_listed user jti rest

eqb_sym : (s t : Text) → eqb s t ≡ eqb t s
eqb_sym [] [] = refl
eqb_sym [] (_ ∷ _) = refl
eqb_sym (_ ∷ _) [] = refl
eqb_sym (x ∷ s) (y ∷ t) = ground (arith, eqb_sym s t)

module _ {W : Type 0} (jwt : Jwt W) where
  -- The tokens before the rest of the loop.
  abbrev pub after_one : ℕ → Session → W → W
  after_one user s w = if is_live_of user s then blacklist_session jwt s.jti w else w

  pub revoke_each-live :
      (user : ℕ) (ss : List Session) (w : W)
      → (live_sessions user (revoke_each jwt user ss w).1 ≡ [])
        × ((revoke_each jwt user ss w).0 ≡ length (live_sessions user ss))
  unfolding revoke_each live_sessions
  revoke_each-live user [] w = (refl, refl)
  revoke_each-live user (s ∷ rest) w =
      ground (arith, revoke_each-live user rest (after_one user s w))

  pub revoke_each-others :
      (user other : ℕ) (ss : List Session) (w : W)
      → other ≢ user
      → live_sessions other (revoke_each jwt user ss w).1 ≡ live_sessions other ss
  unfolding revoke_each live_sessions
  revoke_each-others user other [] w ne = refl
  revoke_each-others user other (s ∷ rest) w ne =
      ground (arith, revoke_each-others user other rest (after_one user s w))

module _ {W : Type 0} (jwt : Jwt W) (laws : JwtLaws jwt) where
  blacklist_session-outstanding :
      (i j : Text) (w : W)
      → jwt.is_outstanding i (blacklist_session jwt j w) ≡ jwt.is_outstanding i w
  unfolding blacklist_session
  blacklist_session-outstanding i j w = ground (arith, laws.outstanding_law i j w)

  blacklist_session-no_new :
      (t j : Text) (c : Text × ℕ) (w : W)
      → jwt.check_token t (blacklist_session jwt j w) ≡ some c
      → jwt.check_token t w ≡ some c
  unfolding blacklist_session
  blacklist_session-no_new t j c w h = ground (arith, laws.no_new_law t j c w)

  blacklist_session-refused :
      (t j : Text) (u : ℕ) (w : W)
      → jwt.is_outstanding j w ≡ true
      → jwt.check_token t (blacklist_session jwt j w) ≢ some (j, u)
  unfolding blacklist_session
  blacklist_session-refused t j u w out h = laws.blacklist_law t j u w (rw out at h)

  after_one-outstanding :
      (i : Text) (user : ℕ) (s : Session) (w : W)
      → jwt.is_outstanding i (after_one jwt user s w) ≡ jwt.is_outstanding i w
  after_one-outstanding i user s w = ground (arith, blacklist_session-outstanding i s.jti w)

  pub revoke_each-no_new :
      (t : Text) (c : Text × ℕ) (user : ℕ) (ss : List Session) (w : W)
      → jwt.check_token t (revoke_each jwt user ss w).2 ≡ some c
      → jwt.check_token t w ≡ some c
  unfolding revoke_each
  revoke_each-no_new t c user [] w h = h
  revoke_each-no_new t c user (s ∷ rest) w h =
      let one = revoke_each-no_new t c user rest (after_one jwt user s w) h in
      elim (Bool-cases (is_live_of user s)) [
        | inl live ↦ blacklist_session-no_new t s.jti c w (rw live at one)
        | inr dead ↦ rw dead at one
      ]

  pub revoke_each-refused :
      (t j : Text) (u user : ℕ) (ss : List Session) (w : W)
      → is_listed user j ss ≡ true
      → jwt.is_outstanding j w ≡ true
      → jwt.check_token t (revoke_each jwt user ss w).2 ≢ some (j, u)
  unfolding revoke_each is_listed
  revoke_each-refused t j u user [] w h out e = cc
  revoke_each-refused t j u user (s ∷ rest) w h out e =
      elim (Bool-cases (is_live_of user s && eqb s.jti j)) [
        | inl here ↦
            blacklist_session-refused t j u w out
              (go s here (revoke_each-no_new t (j, u) user rest (after_one jwt user s w) e))
        | inr there ↦
            revoke_each-refused t j u user rest (after_one jwt user s w) (ground arith)
              (after_one-outstanding j user s w ∙ out) e
      ]
    where
      go :
          (s : Session)
          → is_live_of user s && eqb s.jti j ≡ true
          → jwt.check_token t (after_one jwt user s w) ≡ some (j, u)
          → jwt.check_token t (blacklist_session jwt j w) ≡ some (j, u)
      go s here h = ground (arith, eqb_sound s.jti j)

  -- A token whose jti is of no live session of the user is kept.
  pub revoke_each-kept :
      (t j : Text) (u user : ℕ) (ss : List Session) (w : W)
      → is_listed user j ss ≡ false
      → jwt.check_token t w ≡ some (j, u)
      → jwt.check_token t (revoke_each jwt user ss w).2 ≡ some (j, u)
  unfolding revoke_each is_listed blacklist_session
  revoke_each-kept t j u user [] w h e = e
  revoke_each-kept t j u user (s ∷ rest) w h e =
      revoke_each-kept t j u user rest (after_one jwt user s w) (ground arith)
        (ground (arith, laws.others_law t j s.jti u w, eqb_sym s.jti j))
