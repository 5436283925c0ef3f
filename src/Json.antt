-- ===== src/Json.antt =====
-- The scalar JSON values of a request body, `request.data`, and what the views make of them. A list or
-- an object is not sent for the fields that are read by these functions.
use phone_app.Base.{
  suc, Bool, true, false, not, Option, none, some, [], ◌∷◌, ◌++◌, ◌==◌, if◌then◌else◌, Text, codes,
}
use phone_app.Base.{is_in, lower, strip, decimal, parse_int}
use phone_app.Base.Int.{ℤ, pos, negsuc}

-- A scalar JSON value.
pub data Json : Type 0 where
  null : Json
  boolean : Bool → Json
  number : ℤ → Json
  text : Text → Json

abbrev pub number_text : ℤ → Text
number_text (pos n) = decimal n
number_text (negsuc n) = codes "-" ++ decimal (suc n)

-- `str(value)`
unfoldable pub json_text : Json → Text
json_text null = codes "None"
json_text (boolean true) = codes "True"
json_text (boolean false) = codes "False"
json_text (number n) = number_text n
json_text (text t) = t

-- `str(value or "")`
unfoldable pub json_text_or_empty : Json → Text
unfolding json_text
json_text_or_empty null = []
json_text_or_empty (boolean false) = []
json_text_or_empty (boolean true) = codes "True"
json_text_or_empty (number n) = elim n [
  | pos m ↦ if m == 0 then [] else decimal m
  | negsuc m ↦ number_text (negsuc m)
]
json_text_or_empty (text t) = t

-- `str(value).strip().lower() in ("true", "1")`
abbrev pub json_flag : Json → Bool
json_flag j = is_in (lower (strip (json_text j))) (codes "true" ∷ codes "1" ∷ [])

-- `bool(value)`
abbrev pub json_truthy : Json → Bool
json_truthy null = false
json_truthy (boolean b) = b
json_truthy (number (pos n)) = not (n == 0)
json_truthy (number (negsuc n)) = true
json_truthy (text []) = false
json_truthy (text (c ∷ t)) = true

-- `int(value)`; `none` is a `TypeError` or a `ValueError`.
unfoldable pub json_int : Json → Option ℤ
json_int null = none
json_int (boolean b) = some (pos (if b then 1 else 0))
json_int (number n) = some n
json_int (text t) = parse_int t
