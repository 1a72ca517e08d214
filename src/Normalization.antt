-- ===== src/Normalization.antt =====
-- services/normalization.py: names and optional texts. Python's `ValueError` is an error type of
-- its own here; the services turn it into a `ValidationError`.
pub mod Slugs
pub mod Joined
pub mod Tests
use Prim.Native.String
use software_hub.Prelude.{
  ℕ, zero, suc, ◌/◌, ◌%◌, String, Bool, true, false, Option, none, some, [], ◌∷◌, Text, ltb,
  nat_beq, length, if◌then◌else◌,
}
use software_hub.Errors.{ApplicationError, Result, err}
use software_hub.Unicode.{Unicode, strip}

pub data ValueError : Type 0 where
  name_empty : ValueError
  name_too_long : ℕ → ValueError
  slug_not_generated slug_malformed : ValueError
  slug_too_long text_too_long : ℕ → ValueError

pub data Checked (A : Type 0) : Type 0 where
  valid : A → Checked A
  invalid : ValueError → Checked A

unfoldable pub digit : ℕ → String
digit zero = "0"
digit (suc zero) = "1"
digit (suc (suc zero)) = "2"
digit (suc (suc (suc zero))) = "3"
digit (suc (suc (suc (suc zero)))) = "4"
digit (suc (suc (suc (suc (suc zero))))) = "5"
digit (suc (suc (suc (suc (suc (suc zero)))))) = "6"
digit (suc (suc (suc (suc (suc (suc (suc zero))))))) = "7"
digit (suc (suc (suc (suc (suc (suc (suc (suc zero)))))))) = "8"
digit (suc (suc (suc (suc (suc (suc (suc (suc (suc n))))))))) = "9"

-- The decimal text of a number below ten to the fuel.
unfoldable pub decimal : ℕ → ℕ → String
unfolding digit
decimal zero n = ""
decimal (suc fuel) n =
    let front = decimal fuel (n / 10) in
    if ltb n 10 then digit n else String.◌++◌ front (digit (n % 10))

-- `str(exc)`
unfoldable pub value_error_message : ValueError → String
unfolding decimal
value_error_message ValueError.name_empty = "Name cannot be empty."
value_error_message (ValueError.name_too_long n) =
    String.◌++◌ "Name must not exceed " (String.◌++◌ (decimal 10 n) " characters.")
value_error_message ValueError.slug_not_generated =
    "Slug could not be generated; enter an explicit ASCII slug."
value_error_message ValueError.slug_malformed =
    "Slug must contain lowercase ASCII letters, digits, and single hyphens."
value_error_message (ValueError.slug_too_long n) =
    String.◌++◌ "Slug must not exceed " (String.◌++◌ (decimal 10 n) " characters.")
value_error_message (ValueError.text_too_long n) =
    String.◌++◌ "Text must not exceed " (String.◌++◌ (decimal 10 n) " characters.")

-- `except ValueError as exc: raise ValidationError(str(exc)) from exc`
abbrev pub or_validation_error {ℓ} :
    {A : Type 0} {B : Type ℓ} → Checked A → (A → Result B) → Result B
or_validation_error (valid a) f = f a
or_validation_error (invalid e) f = err (ApplicationError.validation_error (value_error_message e))

-- `" ".join(value.split())`, one character at a time: a run of white space is written as one space
-- before the next word, and not at all where no word stands before or behind it.
unfoldable pub collapse_from : Unicode → Bool → Bool → Text → Text
collapse_from u started pending [] = []
collapse_from u started pending (c ∷ s) = elim (u.is_space c) [
  | true ↦ collapse_from u started started s
  | false ↦
      if pending then 32 ∷ c ∷ collapse_from u true false s else c ∷ collapse_from u true false s
]

unfoldable pub collapse_whitespace : Unicode → Text → Text
unfolding collapse_from
collapse_whitespace u s = collapse_from u false false s

unfoldable pub normalize_name : Unicode → Text → ℕ → Checked Text
unfolding collapse_whitespace
normalize_name u value max_length =
    let normalized = collapse_whitespace u value in
    if nat_beq (length normalized) 0
    then invalid ValueError.name_empty
    else if ltb max_length (length normalized)
    then invalid (ValueError.name_too_long max_length)
    else valid normalized

unfoldable pub normalize_optional_text : Unicode → Option Text → ℕ → Checked (Option Text)
normalize_optional_text u none max_length = valid none
normalize_optional_text u (some value) max_length =
    let normalized = strip u value in
    if nat_beq (length normalized) 0
    then valid none
    else if ltb max_length (length normalized)
    then invalid (ValueError.text_too_long max_length)
    else valid (some normalized)
