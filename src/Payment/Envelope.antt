-- ===== src/Payment/Envelope.antt =====
-- `_chain_id_of` and `decode_envelope` of app/services/payment.py.
pub mod Shape
pub mod Honest
use bnb_agent_marketplace.Base.{
  ℕ, Bool, true, false, not, ◌||◌, Option, none, some, Text, codes, text_eq, lower, strip, is_empty,
  strip_prefix, ◌==◌, if◌then◌else◌,
}
use bnb_agent_marketplace.Base.Int.{pos}
use bnb_agent_marketplace.Errors.{
  Result, ok, err, invalid_envelope, unsupported_rail, value_error, recursion_error, ◌>>=◌, ◌>>◌,
  raise_if, or_raise,
}
use bnb_agent_marketplace.Json.{
  Json, bool, int, float, str, obj, Fields, end, get, get_value, has, as_dict, as_str,
}
use bnb_agent_marketplace.Payment.Types.{
  Authorization, Transfer, DecodedPayment, Externals, Loaded, value, malformed, too_long, too_deep,
  eip3009_rail, zero_address,
}
use bnb_agent_marketplace.Payment.Validators.{as_address, as_numeric, as_hex, numeric}

-- `authorization[key]`: a `KeyError` is an invalid envelope.
unfoldable pub field_of : Text → Fields → Result Json
unfolding get
field_of key d = or_raise (get key d) invalid_envelope

-- `_as_address(authorization[key])` and `_as_hex(authorization[key])`
unfoldable pub address_field : Text → Fields → Result Text
unfolding field_of as_address
address_field key d = field_of key d >>= as_address

unfoldable pub hex_field : Text → Fields → Result Text
unfolding field_of as_hex
hex_field key d = field_of key d >>= as_hex

-- `int` of a text that matched, else the next candidate.
unfoldable pub first_match : Option (Result ℕ) → Result (Option ℕ) → Result (Option ℕ)
first_match none other = other
first_match (some r) other = do n ← r; ok (some n)

-- `envelope.get("x402Version") not in (1, 2)`, where Python has `1 == True == 1.0`.
unfoldable pub version_ok : Option Json → Bool
version_ok (some (int (pos n))) = n == 1 || n == 2
version_ok (some (float (pos n) true)) = n == 1 || n == 2
version_ok (some (bool b)) = b
version_ok _ = false

-- A missing or `null` asset stands for the configured token.
unfoldable pub token_of : Option Json → Result Text
unfolding as_address
token_of none = ok zero_address
token_of (some asset) = as_address asset

unfoldable pub decode_token : Fields → Result Text
unfolding token_of
decode_token envelope = elim (as_dict (get (codes "accepted") envelope)) [
  | none ↦ ok zero_address
  | some accepted ↦ token_of (get_value (codes "asset") accepted)
]

module _ (x : Externals) where
  -- `^eip155:(\d+)$`
  unfoldable pub network_chain : Option Text → Option (Result ℕ)
  unfolding strip_prefix numeric
  network_chain none = none
  network_chain (some net) = elim (strip_prefix (codes "eip155:") net) [
    | none ↦ none
    | some rest ↦ numeric x.digit rest
  ]

  -- `_NUMERIC_RE.match(str(cid))` and `int(cid)`; `str` of any other value does not match.
  unfoldable pub bare_chain : Option Json → Option (Result ℕ)
  unfolding numeric
  bare_chain (some (int (pos n))) = some (ok n)
  bare_chain (some (str s)) = numeric x.digit s
  bare_chain _ = none

  unfoldable pub chain_id_of : Fields → Result (Option ℕ)
  unfolding network_chain bare_chain first_match
  chain_id_of envelope =
      let accepted = as_dict (get (codes "accepted") envelope) in
      let inner : Fields = elim accepted [ none ↦ end | some d ↦ d ] in
      first_match (network_chain (as_str (get (codes "network") inner))) (
        first_match (network_chain (as_str (get (codes "network") envelope))) (
          first_match (bare_chain (get_value (codes "chainId") inner))
            (first_match (bare_chain (get_value (codes "chainId") envelope)) (ok none))))

  -- `_as_numeric(authorization[key])`
  unfoldable pub number_field : Text → Fields → Result ℕ
  unfolding field_of as_numeric
  number_field key d = field_of key d >>= as_numeric x.digit

  unfoldable pub decode_authorization : Fields → Result Authorization
  decode_authorization d = do
    from ← address_field (codes "from") d
    to ← address_field (codes "to") d
    amount ← number_field (codes "value") d
    valid_after ← number_field (codes "validAfter") d
    valid_before ← number_field (codes "validBefore") d
    nonce ← hex_field (codes "nonce") d
    ok (record {
      from = from;
      to = to;
      value = amount;
      valid_after = valid_after;
      valid_before = valid_before;
      nonce = nonce;
    })

  -- A value of `payload.fee`: a payment signed by the same payer.
  unfoldable pub fee_of : Fields → Authorization → Text → ℕ → Option Json → Result (Option Transfer)
  fee_of envelope auth token chain_id none = ok none
  fee_of envelope auth token chain_id (some fee) = do
    fee_payload ← or_raise (as_dict (some fee)) invalid_envelope
    fee_fields ← or_raise (as_dict (get (codes "authorization") fee_payload)) invalid_envelope
    fee_auth ← decode_authorization fee_fields
    signature ← hex_field (codes "signature") fee_payload
    raise_if (not (text_eq (lower fee_auth.from) (lower auth.from))) invalid_envelope
    ok (
        some (record {
          rail = eip3009_rail;
          payer = fee_auth.from;
          amount = fee_auth.value;
          token = token;
          chain_id = chain_id;
          authorization = fee_auth;
          signature = signature;
          raw = envelope;
        }))

  -- `decode_envelope`, from the loaded object on.
  unfoldable pub decode_object : Fields → Result DecodedPayment
  decode_object envelope = do
    raise_if (not (version_ok (get (codes "x402Version") envelope))) invalid_envelope
    raise_if (not (has (codes "resource") envelope)) invalid_envelope
    or_raise (as_str (get (codes "network") envelope)) invalid_envelope >>= λ _. ok tt
    payload ← or_raise (as_dict (get (codes "payload") envelope)) invalid_envelope
    raise_if (has (codes "permit2Authorization") payload || has (codes "permit") payload)
        unsupported_rail
    fields ← or_raise (as_dict (get (codes "authorization") payload)) invalid_envelope
    auth ← decode_authorization fields
    signature ← hex_field (codes "signature") payload
    found ← chain_id_of envelope
    chain_id ← or_raise found invalid_envelope
    token ← decode_token envelope
    fee ← fee_of envelope auth token chain_id (get_value (codes "fee") payload)
    ok (record {
      transfer = record {
        rail = eip3009_rail;
        payer = auth.from;
        amount = auth.value;
        token = token;
        chain_id = chain_id;
        authorization = auth;
        signature = signature;
        raw = envelope;
      };
      fee = fee;
    })

  -- `isinstance(envelope, dict)`
  unfoldable pub decode_loaded : Loaded → Result DecodedPayment
  decode_loaded (value (obj envelope)) = decode_object envelope
  decode_loaded (value _) = err invalid_envelope
  decode_loaded malformed = err invalid_envelope
  decode_loaded too_long = err value_error
  decode_loaded too_deep = err recursion_error

  unfoldable pub decode_envelope : Option Text → Result DecodedPayment
  decode_envelope none = err invalid_envelope
  decode_envelope (some header) =
      if is_empty (strip header)
      then err invalid_envelope
      else decode_loaded (x.load (strip header))
