-- ===== src/Payment/Envelope/Shape.antt =====
-- What every payment that `decode_envelope` returns looks like.
use bnb_agent_marketplace.Errors.{Result-cases, Ensures, Ensures-ok}
use bnb_agent_marketplace.Base.{
  Text, ◌≡◌, true, arith, codes, inl, inr, lower, Option, none, some, Option-cases, ℕ, refl,
  text_eq_iff, strip, strip_prefix, chop_newline, all_hex,
}
use bnb_agent_marketplace.Json.{obj}
use bnb_agent_marketplace.Json.{Json, Fields, str, get, as_dict, get_value}
use bnb_agent_marketplace.Payment.Types.{
  Authorization, Transfer, DecodedPayment, Externals, Loaded, value, eip3009_rail,
}
use bnb_agent_marketplace.Payment.Validators.{as_address, as_hex, is_address, is_hex_text}
use bnb_agent_marketplace.Payment.Envelope.{
  decode_envelope, address_field, hex_field, decode_authorization, decode_object, decode_token,
  field_of, decode_loaded, fee_of, token_of, fee_of,
}

abbrev IsAddress : Text → Type 0
IsAddress s = is_address s ≡ true

abbrev IsHex : Text → Type 0
IsHex s = is_hex_text s ≡ true

as_address-IsAddress : (v : Json) → Ensures IsAddress (as_address v)
unfolding as_address
as_address-IsAddress (str s) = ground arith
as_address-IsAddress _ = tt

address_field-IsAddress : (key : Text) (d : Fields) → Ensures IsAddress (address_field key d)
unfolding address_field
address_field-IsAddress key d = elim (Result-cases (field_of key d)) [
  | inl (v, e) ↦ rw e (as_address-IsAddress v)
  | inr (_, e) ↦ rw e tt
]

as_hex-IsHex : (v : Json) → Ensures IsHex (as_hex v)
unfolding as_hex
as_hex-IsHex (str s) = ground arith
as_hex-IsHex _ = tt

hex_field-IsHex : (key : Text) (d : Fields) → Ensures IsHex (hex_field key d)
unfolding hex_field
hex_field-IsHex key d = elim (Result-cases (field_of key d)) [
  | inl (v, e) ↦ rw e (as_hex-IsHex v)
  | inr (_, e) ↦ rw e tt
]

pub record IsAuthorization (a : Authorization) : Type 0 where
  pub from : is_address a.from ≡ true
  pub to : is_address a.to ≡ true
  pub nonce : is_hex_text a.nonce ≡ true

pub record IsTransfer (t : Transfer) : Type 0 where
  pub rail : t.rail ≡ eip3009_rail
  pub payer : t.payer ≡ t.authorization.from
  pub amount : t.amount ≡ t.authorization.value
  pub token : is_address t.token ≡ true
  pub signature : is_hex_text t.signature ≡ true
  pub authorization : IsAuthorization t.authorization

module _ (x : Externals) where
  decode_authorization-IsAuthorization :
      (d : Fields) → Ensures IsAuthorization (decode_authorization x d)
  unfolding decode_authorization
  decode_authorization-IsAuthorization d = ground (
    arith,
    address_field-IsAddress (codes "from") d,
    address_field-IsAddress (codes "to") d,
    hex_field-IsHex (codes "nonce") d,
  )

token_of-IsAddress : (v : Option Json) → Ensures IsAddress (token_of v)
unfolding token_of
token_of-IsAddress none = unfold is_address strip_prefix chop_newline all_hex in refl
token_of-IsAddress (some v) = as_address-IsAddress v

decode_token-IsAddress : (d : Fields) → Ensures IsAddress (decode_token d)
unfolding decode_token
decode_token-IsAddress d = elim (Option-cases (as_dict (get (codes "accepted") d))) [
  | inl e ↦ rw (e, Ensures) (token_of-IsAddress none)
  | inr (accepted, e) ↦ rw (e, Ensures) (token_of-IsAddress (get_value (codes "asset") accepted))
]

-- A fee is a transfer that the same payer has signed for the same token and chain.
abbrev pub IsFee : Text → ℕ → Text → Option Transfer → Type 0
IsFee token chain_id payer none = Unit
IsFee token chain_id payer (some fee) =
    IsTransfer fee
    × (lower fee.payer ≡ lower payer)
    × (fee.token ≡ token)
    × (fee.chain_id ≡ chain_id)

-- A transfer of the `eip3009` rail, whose payer and amount are those of its authorization and whose
-- addresses are addresses, with such a fee.
pub record IsPayment (d : DecodedPayment) : Type 0 where
  pub transfer : IsTransfer d.transfer
  pub fee : IsFee d.token d.chain_id d.payer d.fee

module _ (x : Externals) where
  fee_of-IsFee :
      (d : Fields) (auth : Authorization) (token : Text) (chain_id : ℕ) (v : Option Json)
      → IsAddress token
      → Ensures (IsFee token chain_id auth.from) (fee_of x d auth token chain_id v)
  unfolding fee_of
  fee_of-IsFee d auth token chain_id none h = tt
  fee_of-IsFee d auth token chain_id (some v) h = elim (Option-cases (as_dict (some v))) [
    | inl e ↦ ground arith
    | inr (payload, e) ↦ elim (Option-cases (as_dict (get (codes "authorization") payload))) [
      | inl e' ↦ ground arith
      | inr (fields, e') ↦ elim (Result-cases (decode_authorization x fields)) [
        | inr (_, failed) ↦ ground arith
        | inl (a, done) ↦ ground (
          arith,
          Ensures-ok IsAuthorization _ (decode_authorization-IsAuthorization x fields) done,
          hex_field-IsHex (codes "signature") payload,
          text_eq_iff (lower a.from) (lower auth.from),
        )
      ]
    ]
  ]

  decode_object-IsPayment : (d : Fields) → Ensures IsPayment (decode_object x d)
  unfolding decode_object
  decode_object-IsPayment d = elim (Option-cases (as_dict (get (codes "payload") d))) [
    | inl e ↦ ground arith
    | inr (payload, e) ↦ elim (Option-cases (as_dict (get (codes "authorization") payload))) [
      | inl e' ↦ ground arith
      | inr (fields, e') ↦ elim (Result-cases (decode_authorization x fields)) [
        | inr (_, failed) ↦ ground arith
        | inl (auth, done) ↦ elim (Result-cases (decode_token d)) [
          | inr (_, failed) ↦ ground arith
          | inl (token, decoded) ↦ grind (
            arith,
            Ensures-ok IsAuthorization _ (decode_authorization-IsAuthorization x fields) done,
            hex_field-IsHex (codes "signature") payload,
            Ensures-ok IsAddress _ (decode_token-IsAddress d) decoded,
            fee_of-IsFee d auth token,
          )
        ]
      ]
    ]
  ]

  decode_loaded-IsPayment : (l : Loaded) → Ensures IsPayment (decode_loaded x l)
  unfolding decode_loaded
  decode_loaded-IsPayment (value (obj d)) = decode_object-IsPayment d
  decode_loaded-IsPayment _ = tt

  -- Whatever the header holds, a payment that comes out of it is well formed: it is on the `eip3009`
  -- rail, its payer and amount are those of its authorization, its addresses, nonce and signature have
  -- their formats, and a fee is another such transfer of the same payer, token and chain.
  pub decode_envelope-IsPayment :
      (header : Option Text) → Ensures IsPayment (decode_envelope x header)
  unfolding decode_envelope
  decode_envelope-IsPayment none = tt
  decode_envelope-IsPayment (some s) = ground (arith, decode_loaded-IsPayment (x.load (strip s)))
