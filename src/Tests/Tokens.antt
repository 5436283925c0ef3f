-- ===== src/Tests/Tokens.antt =====
-- A token service: a list of the tokens that were given out, the oldest first, each with whether it is
-- blacklisted. A jti is the place in the list, and a token the user with that place.
use phone_app.Base.{
  ℕ, zero, suc, ◌≡◌, ◌≢◌, refl, ap, Bool, true, false, not, Option, none, some, List, [], ◌∷◌, ◌++◌,
  arith, ltb, ◌==◌, if◌then◌else◌, Text, eqb, length,
}
use phone_app.Accounts.{User}
use phone_app.Accounts.Sessions.{Jwt}
use phone_app.Accounts.Revoking.{JwtLaws}

unfoldable pub is_valid : ℕ → List Bool → Bool
is_valid k [] = false
is_valid zero (b ∷ bs) = not b
is_valid (suc k) (b ∷ bs) = is_valid k bs

unfoldable pub mark : ℕ → List Bool → List Bool
mark k [] = []
mark zero (b ∷ bs) = true ∷ bs
mark (suc k) (b ∷ bs) = b ∷ mark k bs

unfoldable pub check_token : Text → List Bool → Option (Text × ℕ)
unfolding is_valid
check_token [] w = none
check_token (u ∷ []) w = none
check_token (u ∷ k ∷ []) w = if is_valid k w then some (k ∷ [], u) else none
check_token (u ∷ k ∷ c ∷ cs) w = none

unfoldable pub blacklist : Text → List Bool → List Bool
unfolding mark
blacklist [] w = w
blacklist (k ∷ []) w = mark k w
blacklist (k ∷ c ∷ cs) w = w

unfoldable pub is_outstanding : Text → List Bool → Bool
is_outstanding [] w = false
is_outstanding (k ∷ []) w = ltb k (length w)
is_outstanding (k ∷ c ∷ cs) w = false

unfoldable pub for_user : ℕ → List Bool → (Text × Text) × List Bool
for_user u w = ((u ∷ length w ∷ [], length w ∷ []), w ++ false ∷ [])

-- Nobody but user 2 has a password.
unfoldable pub authenticate : Text → Text → List User → Option ℕ
authenticate name password users = some 2

abbrev pub jwt : Jwt (List Bool)
jwt = record {
  authenticate = authenticate;
  for_user = for_user;
  check_token = check_token;
  is_outstanding = is_outstanding;
  blacklist = blacklist;
  delete_user = λ u w. w;
}

is_valid-mark :
    (i k : ℕ) (w : List Bool) → is_valid i (mark k w) ≡ (if i == k then false else is_valid i w)
unfolding is_valid mark
is_valid-mark i k [] = ground arith
is_valid-mark zero zero (b ∷ bs) = refl
is_valid-mark zero (suc k) (b ∷ bs) = ground arith
is_valid-mark (suc i) zero (b ∷ bs) = ground arith
is_valid-mark (suc i) (suc k) (b ∷ bs) = ground (arith, is_valid-mark i k bs)

length-mark : (k : ℕ) (w : List Bool) → length (mark k w) ≡ length w
unfolding mark
length-mark k [] = refl
length-mark zero (b ∷ bs) = refl
length-mark (suc k) (b ∷ bs) = ap suc (length-mark k bs)

is_valid-new : (w : List Bool) → is_valid (length w) (w ++ false ∷ []) ≡ true
unfolding is_valid
is_valid-new [] = refl
is_valid-new (b ∷ bs) = is_valid-new bs

check-blacklist :
    (t j : Text) (w : List Bool) (c : Text × ℕ)
    → check_token t (blacklist j w) ≡ some c
    → (check_token t w ≡ some c) × (c.0 ≢ j)
unfolding check_token blacklist
check-blacklist [] j w c h = cc
check-blacklist (u ∷ []) j w c h = cc
check-blacklist (u ∷ k ∷ d ∷ t) j w c h = cc
check-blacklist (u ∷ k ∷ []) [] w c h = ground arith
check-blacklist (u ∷ k ∷ []) (i ∷ []) w c h = ground (arith, is_valid-mark k i w)
check-blacklist (u ∷ k ∷ []) (i ∷ d ∷ j) w c h = ground arith

check-others :
    (t i j : Text) (u : ℕ) (w : List Bool)
    → check_token t w ≡ some (i, u)
    → eqb i j ≡ false
    → check_token t (blacklist j w) ≡ some (i, u)
unfolding check_token blacklist
check-others [] i j u w h ne = cc
check-others (v ∷ []) i j u w h ne = cc
check-others (v ∷ k ∷ d ∷ t) i j u w h ne = cc
check-others (v ∷ k ∷ []) i [] u w h ne = h
check-others (v ∷ k ∷ []) i (n ∷ []) u w h ne = ground (arith, is_valid-mark k n w)
check-others (v ∷ k ∷ []) i (n ∷ d ∷ j) u w h ne = h

outstanding-blacklist :
    (i j : Text) (w : List Bool) → is_outstanding i (blacklist j w) ≡ is_outstanding i w
unfolding is_outstanding blacklist
outstanding-blacklist [] j w = refl
outstanding-blacklist (i ∷ c ∷ cs) j w = refl
outstanding-blacklist (i ∷ []) [] w = refl
outstanding-blacklist (i ∷ []) (k ∷ []) w = rw (length-mark k w) refl
outstanding-blacklist (i ∷ []) (k ∷ d ∷ j) w = refl

check-issued :
    (u : ℕ) (w : List Bool)
    → check_token (u ∷ length w ∷ []) (w ++ false ∷ []) ≡ some (length w ∷ [], u)
unfolding check_token
check-issued u w = rw (is_valid-new w) refl

pub jwt-JwtLaws : JwtLaws jwt
unfolding for_user
jwt-JwtLaws = record {
  blacklist_law = λ t j u w h. (check-blacklist t j w (j, u) h).1 refl;
  no_new_law = λ t j c w h. (check-blacklist t j w c h).0;
  others_law = check-others;
  outstanding_law = outstanding-blacklist;
  issued_law = check-issued;
}
