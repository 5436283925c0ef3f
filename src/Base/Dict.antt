-- ===== src/Base/Dict.antt =====
-- Python's dict with texts as keys: pairs in the order of insertion.
use mathlib.Core.Path.{◌≡◌, refl}
use mathlib.Core.Option.{Option, none, some}
use mathlib.Core.List.{List, [], ◌∷◌}
use native.Mathlib.Omega.{arith}
use phone_app.Base.Tests.{if◌then◌else◌}
use phone_app.Base.Strings.{Text, eqb, eqb_sound, eqb_refl}

module _ {A : Type 0} where
  abbrev pub lookup : Text → List (Text × A) → Option A
  lookup k [] = none
  lookup k ((j, a) ∷ d) = if eqb j k then some a else lookup k d

  -- `d[k] = a`
  abbrev pub insert : Text → A → List (Text × A) → List (Text × A)
  insert k a [] = (k, a) ∷ []
  insert k a ((j, b) ∷ d) = if eqb j k then (k, a) ∷ d else (j, b) ∷ insert k a d

  -- `d.pop(k, None)`
  abbrev pub erase : Text → List (Text × A) → List (Text × A)
  erase k [] = []
  erase k ((j, b) ∷ d) = if eqb j k then erase k d else (j, b) ∷ erase k d

  pub lookup-insert :
      (k u : Text) (a : A) (d : List (Text × A))
      → lookup u (insert k a d) ≡ (if eqb k u then some a else lookup u d)
  lookup-insert k u a [] = refl
  lookup-insert k u a ((j, b) ∷ d) =
      ground (arith, lookup-insert k u a d, eqb_sound j k, eqb_sound j u, eqb_sound k u, eqb_refl u)

  pub lookup-erase :
      (k u : Text) (d : List (Text × A))
      → lookup u (erase k d) ≡ (if eqb k u then none else lookup u d)
  lookup-erase k u [] = ground arith
  lookup-erase k u ((j, b) ∷ d) =
      ground (arith, lookup-erase k u d, eqb_sound j k, eqb_sound j u, eqb_sound k u, eqb_refl u)
