-- ===== src/Payment/Validators/Lower.antt =====
-- `lower` keeps the format of an address.
use bnb_agent_marketplace.Base.{
  ◌==◌, Option-cases, length, Text, codes, lower_char, lower, strip_prefix, is_hex, chop_newline,
  all_hex, ℕ, suc, ◌≡◌, refl, ap, inl, inr, true, some, [], ◌∷◌, arith,
}
use bnb_agent_marketplace.Payment.Validators.{is_address}

is_hex-lower_char : (c : ℕ) → is_hex c ≡ true → is_hex (lower_char c) ≡ true
unfolding is_hex lower_char
is_hex-lower_char c h = ground arith

all_hex-lower : (s : Text) → all_hex s ≡ true → all_hex (lower s) ≡ true
unfolding all_hex lower
all_hex-lower [] h = refl
all_hex-lower (c ∷ s) h = ground (arith, is_hex-lower_char c, all_hex-lower s)

pub length-lower : (s : Text) → length (lower s) ≡ length s
unfolding lower
length-lower [] = refl
length-lower (c ∷ s) = ap suc (length-lower s)

lower_char_newline : (c : ℕ) → (lower_char c == 10) ≡ (c == 10)
unfolding lower_char
lower_char_newline c = ground arith

chop_newline-lower : (s : Text) → chop_newline (lower s) ≡ lower (chop_newline s)
unfolding chop_newline lower
chop_newline-lower [] = refl
chop_newline-lower (c ∷ []) = ground (arith, lower_char_newline c)
chop_newline-lower (c ∷ d ∷ s) = ap (λ t. lower_char c ∷ t) (chop_newline-lower (d ∷ s))

prefix-lower :
    (s body : Text)
    → strip_prefix (codes "0x") s ≡ some body
    → strip_prefix (codes "0x") (lower s) ≡ some (lower body)
unfolding strip_prefix lower lower_char
prefix-lower [] body h = cc
prefix-lower (c ∷ []) body h = ground arith
prefix-lower (c ∷ d ∷ s) body h = ground arith

-- An address in lower case is an address.
pub is_address-lower : (s : Text) → is_address s ≡ true → is_address (lower s) ≡ true
unfolding is_address
is_address-lower s h = elim (Option-cases (strip_prefix (codes "0x") (chop_newline s))) [
  | inl e ↦ absurd (ground arith)
  | inr (body, e) ↦
      rw (chop_newline-lower s, prefix-lower (chop_newline s) body e, is_address)
        (ground (arith, length-lower body, all_hex-lower body))
]
