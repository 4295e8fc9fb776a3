-- ===== src/Payment/Envelope/Honest.antt =====
-- A buyer's client that follows the wire format gets its payment through: challenge, signature,
-- envelope, decoding and verification fit together.
use bnb_agent_marketplace.Errors.{ok}
use bnb_agent_marketplace.Base.{
  length, Text, codes, text_eq, ℕ, ◌≤◌, ◌≡◌, some, arith, refl, true, none, is_empty, lower, strip,
  signed, ◌<◌, ap, inr, false,
}
use bnb_agent_marketplace.Base.Int.{pos}
use bnb_agent_marketplace.Json.{
  Fields, str, int, obj, end, field, get, get_value, has, as_dict, as_str,
}
use bnb_agent_marketplace.Payment.Types.{
  TokenConfig, Authorization, DecodedPayment, Externals, eip3009_rail,
}
use bnb_agent_marketplace.Payment.Validators.{
  is_address, is_hex_text, as_address, as_numeric, as_hex,
}
use bnb_agent_marketplace.Payment.Validators.Decimal.{decimal}
use bnb_agent_marketplace.Payment.Validators.Numeric.{IsAscii, numeric-decimal}
use bnb_agent_marketplace.Payment.Challenge.{
  Challenge, Accept, build_challenge, get_token_config, network_of,
}
use bnb_agent_marketplace.Payment.Envelope.{
  decode_object, chain_id_of, field_of, address_field, hex_field, network_chain, number_field,
  decode_authorization, first_match, version_ok, token_of, decode_token, fee_of, decode_loaded,
  decode_envelope,
}
use bnb_agent_marketplace.Payment.Types.{signer, value}
use bnb_agent_marketplace.Payment.Challenge.Quoted.{build_challenge-Quotes}
use bnb_agent_marketplace.Payment.Envelope.Shape.{IsAuthorization}
use bnb_agent_marketplace.Payment.Verify.{verify_payment, recover_signer}
use bnb_agent_marketplace.Payment.Verify.Rules.{Terms, Meets-verify}

-- The client's JSON: the challenge's entry echoed, and the signed authorization with its numbers
-- as decimal texts.
abbrev json_authorization : Authorization → Fields
json_authorization a = field (codes "from") (str a.from) (
    field (codes "to") (str a.to) (
      field (codes "value") (str (decimal a.value)) (
        field (codes "validAfter") (str (decimal a.valid_after)) (
          field (codes "validBefore") (str (decimal a.valid_before))
            (field (codes "nonce") (str a.nonce) end)))))

abbrev json_accept : Accept → Fields
json_accept accept = field (codes "scheme") (str accept.scheme) (
    field (codes "network") (str accept.network) (
      field (codes "asset") (str accept.asset) (
        field (codes "payTo") (str accept.pay_to)
          (field (codes "amount") (str accept.amount) end))))

abbrev pub answer : Challenge → Authorization → Text → Fields
answer c a signature = field (codes "x402Version") (int (pos c.x402_version)) (
    field (codes "scheme") (str c.accept.scheme) (
      field (codes "network") (str c.accept.network) (
        field (codes "resource") (obj (field (codes "url") (str c.resource_url) end)) (
          field (codes "accepted") (obj (json_accept c.accept)) (
            field (codes "payload")
              (obj (
                field (codes "signature") (str signature)
                  (field (codes "authorization") (obj (json_authorization a)) end)))
              end)))))

-- Every number is short enough for `int`.
abbrev pub IsShort : ℕ → Type 0
IsShort n = length (decimal n) ≤ 4300

module _ (x : Externals) (ascii : IsAscii x.digit) where
  network_chain-network_of :
      (n : ℕ) → IsShort n → network_chain x (some (network_of n)) ≡ some (ok n)
  unfolding network_chain network_of
  network_chain-network_of n h = numeric-decimal x.digit ascii n h

  decode_authorization-json :
      (a : Authorization)
      → IsAuthorization a
      → IsShort a.value
      → IsShort a.valid_after
      → IsShort a.valid_before
      → decode_authorization x (json_authorization a) ≡ ok a
  unfolding decode_authorization address_field hex_field number_field as_address as_hex as_numeric
      field_of get text_eq
  decode_authorization-json a i v s b = ground (
    arith,
    i.from,
    i.to,
    i.nonce,
    numeric-decimal x.digit ascii a.value v,
    numeric-decimal x.digit ascii a.valid_after s,
    numeric-decimal x.digit ascii a.valid_before b,
  )

  -- The decoded form of an answer.
  abbrev honest : Challenge → Authorization → Text → ℕ → DecodedPayment
  honest c a signature chain_id = record {
    transfer = record {
      rail = eip3009_rail;
      payer = a.from;
      amount = a.value;
      token = c.accept.asset;
      chain_id = chain_id;
      authorization = a;
      signature = signature;
      raw = answer c a signature;
    };
    fee = none;
  }

  chain_id_of-answer :
      (c : Challenge) (a : Authorization) (signature : Text) (chain_id : ℕ)
      → c.accept.network ≡ network_of chain_id
      → IsShort chain_id
      → chain_id_of x (answer c a signature) ≡ ok (some chain_id)
  unfolding chain_id_of get text_eq as_dict as_str first_match
  chain_id_of-answer c a signature chain_id e h =
      rw e (rw (network_chain-network_of chain_id h) refl)

  decode_object-answer :
      (c : Challenge) (a : Authorization) (signature : Text) (chain_id : ℕ)
      → c.x402_version ≡ 2
      → c.accept.network ≡ network_of chain_id
      → is_address c.accept.asset ≡ true
      → IsAuthorization a
      → is_hex_text signature ≡ true
      → IsShort chain_id
      → IsShort a.value
      → IsShort a.valid_after
      → IsShort a.valid_before
      → decode_object x (answer c a signature) ≡ ok (honest c a signature chain_id)
  unfolding decode_object get has text_eq as_dict as_str version_ok decode_token token_of as_address
      fee_of hex_field as_hex field_of get_value
  decode_object-answer c a signature chain_id v n t i s hc hv ha hb = ground (
    arith,
    chain_id_of-answer c a signature chain_id n hc,
    decode_authorization-json a i hv ha hb,
  )

-- A buyer who echoes the challenge, authorizes exactly the quoted amount to the payee for a period
-- that holds the present second, and signs it, is decoded and accepted, on every chain whose
-- configured token is an address.
pub honest_payment_accepted :
    (x : Externals)
    → IsAscii x.digit
    → (pay_to url : Text) (timeout chain_id : ℕ) {cfg : TokenConfig}
    → get_token_config chain_id ≡ ok cfg
    → is_address cfg.address ≡ true
    → (a : Authorization) {c : Challenge}
    → build_challenge pay_to url (pos a.value) timeout chain_id ≡ ok c
    → IsAuthorization a
    → lower a.to ≡ lower pay_to
    → IsShort chain_id
    → IsShort a.value
    → IsShort a.valid_after
    → IsShort a.valid_before
    → (now : ℕ) → a.valid_after < now
    → now < a.valid_before
    → (signature message recovered payer : Text) → is_hex_text signature ≡ true
    → x.encode_typed_data (record {
      name = cfg.name;
      version = cfg.version;
      chain_id = chain_id;
      verifying_contract = cfg.address;
      message = a;
    })
      ≡ some message
    → x.recover_message message signature ≡ signer recovered
    → lower recovered ≡ lower payer
    → (header : Text) → is_empty (strip header) ≡ false
    → x.load (strip header) ≡ value (obj (answer c a signature))
    → (d : DecodedPayment) × (decode_envelope x (some header) ≡ ok d)
      × (verify_payment x d chain_id cfg pay_to a.value payer now ≡ ok tt)
unfolding decode_envelope decode_loaded
honest_payment_accepted x ascii pay_to url timeout chain_id {cfg} known token a {c} built i to hc hv
      ha hb now after before signature message recovered payer hex encoded signed same header full
      loaded =
    let q = build_challenge-Quotes pay_to url a.value timeout chain_id known built in
    let d : DecodedPayment = honest x ascii c a signature chain_id in
    let terms : Terms = record {
      chain_id = chain_id;
      token_cfg = cfg;
      pay_to = pay_to;
      amount_wei = a.value;
      payer = payer;
      now = now;
    } in
    (
      d,
      ground (
        arith,
        full,
        loaded,
        decode_object-answer x ascii c a signature chain_id q.version q.network (rw q.asset token) i
            hex hc hv ha hb,
      ),
      Meets-verify x d terms (record {
        chain = refl;
        token = inr (ap lower q.asset);
        amount = refl;
        payee = to;
        started = after;
        running = before;
        signature = (recovered, unfold recover_signer in ground (arith, encoded, signed), same);
      }),
    )
