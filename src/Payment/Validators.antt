-- ===== src/Payment/Validators.antt =====
-- The validators of app/services/payment.py (`_validate_address`, `_as_address`, `_as_numeric`,
-- `_as_hex`), with the regular expressions as functions on texts.
pub mod Decimal
pub mod Numeric
pub mod Lower
use bnb_agent_marketplace.Base.{
  ℕ, suc, ◌+◌, ◌*◌, Bool, false, ◌&&◌, not, Option, none, some, List, [], ◌∷◌, Text, codes, length,
  strip_prefix, chop_newline, all_hex, is_empty, ltb, ◌==◌, if◌then◌else◌,
}
use bnb_agent_marketplace.Base.Int.{pos}
use bnb_agent_marketplace.Errors.{Result, ok, err, validation_error, invalid_envelope, value_error}
use bnb_agent_marketplace.Json.{Json, int, str}

-- `_ADDRESS_RE`: `^0x[0-9a-fA-F]{40}$`
unfoldable pub is_address : Text → Bool
is_address s = elim (strip_prefix (codes "0x") (chop_newline s)) [
  | none ↦ false
  | some body ↦ length body == 40 && all_hex body
]

-- `_HEX_RE`: `^0x[0-9a-fA-F]+$`
unfoldable pub is_hex_text : Text → Bool
is_hex_text s = elim (strip_prefix (codes "0x") (chop_newline s)) [
  | none ↦ false
  | some body ↦ not (is_empty body) && all_hex body
]

-- The digits of a text that matches `\d*`.
unfoldable pub digits_of : (ℕ → Option ℕ) → Text → Option (List ℕ)
digits_of digit [] = some []
digits_of digit (c ∷ s) = elim (digit c) [
  | none ↦ none
  | some d ↦ elim (digits_of digit s) [ none ↦ none | some ds ↦ some (d ∷ ds) ]
]

-- The number that digits stand for, after those already read.
unfoldable pub number : ℕ → List ℕ → ℕ
number n [] = n
number n (d ∷ ds) = number (n * 10 + d) ds

-- The most digits that Python's `int` takes from a text.
abbrev pub max_str_digits : ℕ
max_str_digits = 4300

-- No digits are no match; `int` refuses a text that is too long.
unfoldable pub read_digits : List ℕ → Option (Result ℕ)
unfolding number
read_digits [] = none
read_digits (d ∷ rest) =
    some
      (if ltb max_str_digits (suc (length rest)) then err value_error else ok (number 0 (d ∷ rest)))

-- A match of `^\d+$`: no match, or `int` of the text, which may raise.
unfoldable pub numeric : (ℕ → Option ℕ) → Text → Option (Result ℕ)
unfolding chop_newline digits_of read_digits
numeric digit s = elim (digits_of digit (chop_newline s)) [ none ↦ none | some ds ↦ read_digits ds ]

unfoldable pub validate_address : Text → Result Text
validate_address s = if is_address s then ok s else err validation_error

unfoldable pub as_address : Json → Result Text
as_address (str s) = if is_address s then ok s else err invalid_envelope
as_address _ = err invalid_envelope

unfoldable pub as_numeric : (ℕ → Option ℕ) → Json → Result ℕ
as_numeric digit (int (pos n)) = ok n
as_numeric digit (str s) = elim (numeric digit s) [ none ↦ err invalid_envelope | some r ↦ r ]
as_numeric digit _ = err invalid_envelope

unfoldable pub as_hex : Json → Result Text
as_hex (str s) = if is_hex_text s then ok s else err invalid_envelope
as_hex _ = err invalid_envelope
