-- ===== src/Base/Table.antt =====
-- Python's dict with numbers as keys: pairs in the order of insertion.
use Prim.Native.Nat.{ℕ}
use mathlib.Core.Path.{◌≡◌, refl}
use mathlib.Core.Option.{Option, none, some}
use mathlib.Core.List.{List, [], ◌∷◌}
use native.Mathlib.Omega.{arith}
use phone_app.Base.Tests.{◌==◌, if◌then◌else◌}

module _ {A : Type 0} where
  abbrev pub get_at : ℕ → List (ℕ × A) → Option A
  get_at k [] = none
  get_at k ((j, a) ∷ d) = if j == k then some a else get_at k d

  -- `d[k] = a`
  abbrev pub put_at : ℕ → A → List (ℕ × A) → List (ℕ × A)
  put_at k a [] = (k, a) ∷ []
  put_at k a ((j, b) ∷ d) = if j == k then (k, a) ∷ d else (j, b) ∷ put_at k a d

  pub get_at-put_at :
      (k u : ℕ) (a : A) (d : List (ℕ × A))
      → get_at u (put_at k a d) ≡ (if k == u then some a else get_at u d)
  get_at-put_at k u a [] = refl
  get_at-put_at k u a ((j, b) ∷ d) = ground (arith, get_at-put_at k u a d)

  -- `d.pop(k, None)`
  abbrev pub pop_at : ℕ → List (ℕ × A) → List (ℕ × A)
  pop_at k [] = []
  pop_at k ((j, a) ∷ d) = if j == k then pop_at k d else (j, a) ∷ pop_at k d

  pub get_at-pop_at :
      (k u : ℕ) (d : List (ℕ × A)) → get_at u (pop_at k d) ≡ (if k == u then none else get_at u d)
  get_at-pop_at k u [] = ground arith
  get_at-pop_at k u ((j, a) ∷ d) = ground (arith, get_at-pop_at k u d)
