-- ===== src/Base/Strings.antt =====
-- Text as a list of code points, and Python's operations on it that the program uses.
use Prim.Native.Nat.{ℕ, zero, suc, ◌+◌, ◌*◌, ◌-◌, ◌/◌, ◌%◌}
use Prim.Native.Char.{code}
use Prim.Native.String.{String}
use mathlib.Core.Bool.{Bool, true, false, ◌&&◌, ◌||◌}
use mathlib.Core.List.{List, [], ◌∷◌, ◌++◌, map, reverse}
use mathlib.Core.Path.{◌≡◌, refl}
use native.Mathlib.Omega.{arith}
use phone_app.Base.Tests.{ltb, leb, ◌==◌, if◌then◌else◌}
use mathlib.Core.Option.{Option, none, some}
use phone_app.Base.Lists.{any}
use phone_app.Base.Int.{ℤ, pos, negsuc}

abbrev pub Text : Type 0
Text = List ℕ

abbrev pub codes : String → Text
codes String.[] = []
codes (String.◌∷◌ c s) = code c ∷ codes s

-- `s == t`
abbrev pub eqb : Text → Text → Bool
eqb [] [] = true
eqb [] (_ ∷ _) = false
eqb (_ ∷ _) [] = false
eqb (x ∷ s) (y ∷ t) = x == y && eqb s t

pub eqb_sound : (s t : Text) → eqb s t ≡ true → s ≡ t
eqb_sound [] [] h = refl
eqb_sound [] (_ ∷ _) h = ground arith
eqb_sound (_ ∷ _) [] h = ground arith
eqb_sound (x ∷ s) (y ∷ t) h = ground (arith, eqb_sound s t)

pub eqb_refl : (s : Text) → eqb s s ≡ true
eqb_refl [] = refl
eqb_refl (x ∷ s) = ground (arith, eqb_refl s)

-- `s in (t, u, …)`
abbrev pub is_in : Text → List Text → Bool
is_in s ts = any (eqb s) ts

-- `s.startswith(p)`
abbrev pub starts_with : Text → Text → Bool
starts_with s [] = true
starts_with [] (_ ∷ _) = false
starts_with (x ∷ s) (y ∷ p) = x == y && starts_with s p

-- `p in s`
abbrev pub contains : Text → Text → Bool
contains [] p = starts_with [] p
contains (x ∷ s) p = starts_with (x ∷ s) p || contains s p

-- `s.lower()`, on ASCII.
abbrev pub lower_char : ℕ → ℕ
lower_char c = if leb b'A' c && leb c b'Z' then c + 32 else c

abbrev pub lower : Text → Text
lower = map lower_char

-- `s.upper()`, on ASCII.
abbrev pub upper_char : ℕ → ℕ
upper_char c = if leb b'a' c && leb c b'z' then c - 32 else c

abbrev pub upper : Text → Text
upper = map upper_char

-- Python's ASCII white space: tab to carriage return, the four separators, blank.
abbrev pub is_space : ℕ → Bool
is_space c = (leb 9 c && leb c 13) || (leb 28 c && leb c 32)

abbrev pub lstrip : Text → Text
lstrip [] = []
lstrip (c ∷ s) = if is_space c then lstrip s else c ∷ s

-- `s.strip()`
abbrev pub strip : Text → Text
strip s = reverse (lstrip (reverse (lstrip s)))

-- The part of `s` before the first `c`: `s.split(c)[0]`.
abbrev pub before : ℕ → Text → Text
before c [] = []
before c (x ∷ s) = if x == c then [] else x ∷ before c s

abbrev pub is_digit : ℕ → Bool
is_digit c = leb b'0' c && leb c b'9'

-- The digits of `int(s)`, on ASCII: single underscores may stand between two digits. `after` says
-- whether the character before was a digit.
abbrev pub digits_value : ℕ → Bool → Text → Option ℕ
digits_value acc after [] = if after then some acc else none
digits_value acc after (c ∷ s) =
    let rest = digits_value (if is_digit c then acc * 10 + (c - 48) else acc) (is_digit c) s in
    if is_digit c || (c == b'_' && after) then rest else none

abbrev negated : Option ℕ → Option ℤ
negated none = none
negated (some zero) = some (pos zero)
negated (some (suc n)) = some (negsuc n)

abbrev positive : Option ℕ → Option ℤ
positive none = none
positive (some n) = some (pos n)

abbrev signed_value : Text → Option ℤ
signed_value [] = none
signed_value (c ∷ s) =
    if c == b'-'
    then negated (digits_value 0 false s)
    else positive (digits_value 0 false (if c == b'+' then s else c ∷ s))

-- `int(s)`; a `ValueError` is `none`.
unfoldable pub parse_int : Text → Option ℤ
parse_int s = signed_value (strip s)

-- Decimal digits, the last one first; the fuel is the number itself, which has fewer digits.
decimal_rev : ℕ → ℕ → Text
decimal_rev zero n = (48 + n % 10) ∷ []
decimal_rev (suc fuel) n =
    let rest = decimal_rev fuel (n / 10) in if ltb n 10 then (48 + n) ∷ [] else (48 + n % 10) ∷ rest

-- `str(n)`
unfoldable pub decimal : ℕ → Text
unfolding decimal_rev
decimal n = reverse (decimal_rev n n)

-- A common beginning does not matter to `==`.
pub eqb-append_left : (s t u : Text) → eqb (s ++ t) (s ++ u) ≡ eqb t u
eqb-append_left [] t u = refl
eqb-append_left (x ∷ s) t u = ground (arith, eqb-append_left s t u)
