-- ===== src/Errors.antt =====
-- app/errors.py: the exceptions of the API surface, and the Python exceptions that no handler
-- maps (they end in the fallback handler, as a 500).
use bnb_agent_marketplace.Base.{
  subst, ◌≡◌, refl, ◌⊎◌, inl, inr, ℕ, Bool, true, false, Option, none, some, Text, codes,
}

pub data Error : Type 0 where
  validation_error auth_required forbidden not_found conflict : Error
  upstream_rate_limit upstream_unavailable : Error
  no_pay_to invalid_envelope unsupported_rail wrong_chain : Error
  amount_mismatch pay_to_mismatch signature_mismatch challenge_expired : Error
  already_paid broadcast_failed payment_gateway_unconfigured unknown_rail : Error
  agent_offer_unavailable : Error
  -- exceptions of Python itself, and one of a third-party package
  library_error : Error
  type_error value_error index_error attribute_error zero_division recursion_error : Error
  overflow_error : Error

pub data Result {ℓ} (A : Type ℓ) : Type ℓ where
  ok : A → Result A
  err : Error → Result A

-- `if test: raise e`
abbrev pub raise_if : Bool → Error → Result (Unit {0})
raise_if true e = err e
raise_if false e = ok tt

-- A value that may be missing, with the error for that.
abbrev pub or_raise {ℓ} : {A : Type ℓ} → Option A → Error → Result A
or_raise none e = err e
or_raise (some a) e = ok a

-- An exception ends the chain; otherwise the rest is run on the value.
infixl 5 ◌>>=◌ ◌>>◌
abbrev pub ◌>>=◌ {κ ℓ} : {V : Type κ} {W : Type ℓ} → Result V → (V → Result W) → Result W
err raised >>= rest = err raised
ok v >>= rest = rest v

abbrev pub ◌>>◌ {κ} : {W : Type κ} → Result (Unit {0}) → Result W → Result W
check >> rest = check >>= λ _. rest

-- The two attributes of each exception class.
unfoldable pub status_code : Error → ℕ
status_code validation_error = 422
status_code auth_required = 401
status_code forbidden = 403
status_code not_found = 404
status_code conflict = 409
status_code upstream_rate_limit = 429
status_code upstream_unavailable = 503
status_code no_pay_to = 422
status_code invalid_envelope = 400
status_code unsupported_rail = 400
status_code wrong_chain = 403
status_code amount_mismatch = 403
status_code pay_to_mismatch = 403
status_code signature_mismatch = 403
status_code challenge_expired = 409
status_code already_paid = 409
status_code broadcast_failed = 503
status_code payment_gateway_unconfigured = 503
status_code unknown_rail = 500
status_code agent_offer_unavailable = 503
status_code _ = 500

unfoldable pub code : Error → Text
code validation_error = codes "validation_error"
code auth_required = codes "auth_required"
code forbidden = codes "forbidden"
code not_found = codes "not_found"
code conflict = codes "conflict"
code upstream_rate_limit = codes "upstream_rate_limit"
code upstream_unavailable = codes "upstream_unavailable"
code no_pay_to = codes "no_pay_to"
code invalid_envelope = codes "invalid_payment_envelope"
code unsupported_rail = codes "unsupported_rail"
code wrong_chain = codes "payment_wrong_chain"
code amount_mismatch = codes "payment_amount_mismatch"
code pay_to_mismatch = codes "payment_pay_to_mismatch"
code signature_mismatch = codes "signature_mismatch"
code challenge_expired = codes "challenge_expired"
code already_paid = codes "already_paid"
code broadcast_failed = codes "payment_broadcast_failed"
code payment_gateway_unconfigured = codes "payment_gateway_unconfigured"
code unknown_rail = codes "unknown_rail"
code agent_offer_unavailable = codes "agent_offer_unavailable"
code _ = codes "internal_error"

pub Result-cases {ℓ} :
    {A : Type ℓ} (r : Result A) → ((a : A) × (r ≡ ok a)) ⊎ ((e : Error) × (r ≡ err e))
Result-cases (ok a) = inl (a, refl)
Result-cases (err e) = inr (e, refl)

-- `P` of the value, if there is one.
abbrev pub Ensures {ℓ κ} : {A : Type ℓ} → (A → Type κ) → Result A → Type κ
Ensures P (ok a) = P a
Ensures P (err _) = Unit

pub ok-injective {ℓ} : {A : Type ℓ} {a b : A} → ok a ≡ ok b → a ≡ b
ok-injective e = cc

-- What is ensured holds of a value that comes out.
pub Ensures-ok {ℓ κ} :
    {A : Type ℓ} (P : A → Type κ) (r : Result A) {a : A} → Ensures P r → r ≡ ok a → P a
Ensures-ok P (ok b) h e = subst P (ok-injective e) h
Ensures-ok P (err _) h e = absurd (cc)
