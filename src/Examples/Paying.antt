-- ===== src/Examples/Paying.antt =====
-- A payment of the hire of the small world, from the challenge to the settled row.
use bnb_agent_marketplace.Payment.Validators.Decimal.{decimal}
use bnb_agent_marketplace.Payment.Verify.{recover_signer, verify_payment}
use bnb_agent_marketplace.Payment.Validators.{
  as_address, as_hex, as_numeric, digits_of, is_address, is_hex_text, number, numeric, read_digits,
}
use bnb_agent_marketplace.Payment.Challenge.{get_token_config, network_of}
use bnb_agent_marketplace.Json.{get, as_dict, as_str, get_value, has}
use bnb_agent_marketplace.Payment.Envelope.{
  decode_envelope, decode_loaded, decode_object, version_ok, address_field, bare_chain, chain_id_of,
  decode_authorization, decode_token, fee_of, field_of, first_match, hex_field, network_chain,
  number_field, token_of,
}
use bnb_agent_marketplace.Hires.Create.{expired, chain_of, rail_config, second_part, until_colon}
use bnb_agent_marketplace.Config.{x402_payments_configured, x402_rail_for}
use bnb_agent_marketplace.Errors.{ok, err}
use bnb_agent_marketplace.Base.{
  Text, codes, ℕ, ◌≡◌, refl, inr, some, none, true, [], List, arith, text_eq, strip, lookup,
  digit_below, grouped, letter, parse_int, prefixed, signed, unsigned, value_in, all_hex,
  chop_newline, is_hex, is_space, lower, lower_char, lstrip, strip_prefix,
}
use bnb_agent_marketplace.Base.{
  is_empty, strip, lstrip, is_space, length, ◌≤◌, false, is_hex, all_hex, strip_prefix,
  chop_newline,
}
use bnb_agent_marketplace.Payment.Validators.{is_address, is_hex_text, numeric}
use bnb_agent_marketplace.Payment.Validators.Decimal.{decimal}
use bnb_agent_marketplace.Payment.Challenge.{build_challenge, get_token_config}
use bnb_agent_marketplace.Payment.Envelope.Shape.{
  IsPayment, IsAuthorization, decode_envelope-IsPayment,
}
use bnb_agent_marketplace.Payment.Envelope.Honest.{honest_payment_accepted}
use bnb_agent_marketplace.Payment.Envelope.{decode_envelope}
use bnb_agent_marketplace.Examples.World.{ascii_digit-IsAscii}
use bnb_agent_marketplace.Errors.{Ensures, Error}
use bnb_agent_marketplace.Exec.{Exec}
use bnb_agent_marketplace.Base.{◌≢◌, ◌∷◌}
use bnb_agent_marketplace.Payment.Types.{TokenConfig, zero_address}
use bnb_agent_marketplace.Payment.Broadcast.{transaction}
use bnb_agent_marketplace.Payment.Broadcast.Target.{asset_left_out, without_asset}
use bnb_agent_marketplace.Payment.Verify.Rules.{Meets, Meets-verify}
use bnb_agent_marketplace.Hires.Types.{Store, failed}
use bnb_agent_marketplace.Hires.Pay.{finish}
use bnb_agent_marketplace.Examples.World.{testnet_rail}
use bnb_agent_marketplace.Base.Int.{pos}
use bnb_agent_marketplace.Payment.Types.{DecodedPayment, eip3009_rail}
use bnb_agent_marketplace.Payment.Envelope.Honest.{answer}
use bnb_agent_marketplace.Payment.Broadcast.{Call, fake_broadcast}
use bnb_agent_marketplace.Payment.Verify.Rules.{Terms, verify, verify-Meets}
use bnb_agent_marketplace.Hires.Types.{paid, find_hire}
use bnb_agent_marketplace.Hires.Pay.{
  Headers, Approved, PayOut, approve, pay_hire, payable_hire, settlement_rail, look_up_rail,
  to_unavailable,
}
use bnb_agent_marketplace.Hires.Payment.{pay_hire-IsPaid, IsPaid}
use bnb_agent_marketplace.Hires.Closed.{settles_once}
use bnb_agent_marketplace.Hires.Steps.{create_step, here, after}
use bnb_agent_marketplace.Hires.Create.{create_hire}
use bnb_agent_marketplace.Examples.World.{web, abi}
use bnb_agent_marketplace.Examples.World.{
  alice, bob, testnet_token, authorization, challenge, signature, third_parties, settings,
  pending_hire, store,
}

abbrev headers : Headers
headers = record { x_payment = some (codes "h"); payment_signature = none }

abbrev decoded : DecodedPayment
decoded = record {
  transfer = record {
    rail = eip3009_rail;
    payer = alice;
    amount = 7;
    token = testnet_token.address;
    chain_id = 97;
    authorization = authorization;
    signature = signature;
    raw = answer challenge authorization signature;
  };
  fee = none;
}

abbrev approved : Approved
approved = record {
  hire = pending_hire;
  decoded = decoded;
  token_cfg = testnet_token;
  rpc_url = codes "https://bsc-testnet-rpc.publicnode.com";
}

approve_runs : approve third_parties settings 1 headers alice 300000000 store ≡ ok approved
unfolding approve payable_hire find_hire text_eq x402_payments_configured strip expired
    settlement_rail look_up_rail chain_of rail_config x402_rail_for lookup decode_envelope
    decode_loaded decode_object version_ok get digit_below grouped letter parse_int prefixed signed
    unsigned value_in all_hex chop_newline is_hex is_space lower lower_char lstrip strip_prefix
    second_part until_colon to_unavailable as_dict as_str get_value has get_token_config
    address_field bare_chain chain_id_of decode_authorization decode_token fee_of field_of
    first_match hex_field network_chain number_field token_of as_address as_hex as_numeric digits_of
    is_address is_hex_text number numeric read_digits recover_signer verify_payment decimal
approve_runs = refl

abbrev hash : Text
hash = codes "0xabc"

abbrev fake : DecodedPayment → TokenConfig → Text → Text → ℕ → Exec (List Call) Text
fake = fake_broadcast hash

fake_runs :
    (fake decoded testnet_token settings.x402_facilitator_key approved.rpc_url 300000000 []).0
    ≡ ok hash
unfolding fake_broadcast
fake_runs = refl

abbrev pay_out : PayOut
pay_out = record { id = 1; status = paid; tx_hash = some hash }

pay_runs : (pay_hire third_parties settings fake 1 headers alice 300000000 store []).0 ≡ ok pay_out
unfolding pay_hire fake_broadcast finish
pay_runs = ground (arith, approve_runs)

pay_hire-IsPaid_example :
    IsPaid third_parties settings fake 1 headers alice 300000000 store [] pay_out
pay_hire-IsPaid_example =
    pay_hire-IsPaid third_parties settings fake 1 headers alice 300000000 store [] pay_runs

abbrev after_pay : Store
after_pay = (pay_hire third_parties settings fake 1 headers alice 300000000 store []).1

-- Another hire is created before the second payment.
abbrev later_store : Store
later_store = (create_hire web (codes "97:1") (codes "b/") alice 310000000 after_pay).1

short_hash : length hash ≤ 66
short_hash = omega arith

settles_once_example :
    (e : Error) × (pay_hire third_parties settings fake 1 headers bob 320000000 later_store []
      ≡ (err e, later_store, []))
settles_once_example =
    settles_once web third_parties abi settings fake 1 headers alice 300000000 store [] approved
      approve_runs (inr (hash, fake_runs, short_hash))
      (after here (create_step (codes "97:1") (codes "b/") alice 310000000 after_pay)) headers bob
      320000000 []

abbrev failed_store : Store
failed_store = record store { hires = record pending_hire { status = failed } ∷ [] }

find_failed : find_hire 1 failed_store.hires ≡ some (record pending_hire { status = failed })
unfolding find_hire
find_failed = refl

abbrev terms : Terms
terms = record {
  chain_id = 97;
  token_cfg = testnet_token;
  pay_to = bob;
  amount_wei = 7;
  payer = alice;
  now = 300;
}

verify_runs : verify third_parties decoded terms ≡ ok tt
unfolding verify_payment text_eq lower recover_signer
verify_runs = refl

verify-Meets_example : Meets third_parties decoded terms
verify-Meets_example = verify-Meets third_parties decoded terms verify_runs

decoded-Meets : Meets third_parties decoded terms
unfolding recover_signer
decoded-Meets = record {
  chain = refl;
  token = inr refl;
  amount = refl;
  payee = refl;
  started = omega arith;
  running = omega arith;
  signature = (alice, refl, refl);
}

Meets-verify_example : verify third_parties decoded terms ≡ ok tt
Meets-verify_example = Meets-verify third_parties decoded terms decoded-Meets

rail_runs : x402_rail_for 97 ≡ some testnet_rail
unfolding x402_rail_for lookup
rail_runs = refl

asset_left_out_example :
    (verify third_parties (without_asset decoded) terms ≡ ok tt)
    × ((transaction (without_asset decoded) [] (pos 1) (pos 2) (pos 3)).to ≡ zero_address)
    × ((transaction (without_asset decoded) [] (pos 1) (pos 2) (pos 3)).to
        ≢ testnet_rail.token_address)
asset_left_out_example =
    asset_left_out third_parties decoded terms verify_runs [] (pos 1) (pos 2) (pos 3) 97 rail_runs

decode_envelope-IsPayment_example :
    Ensures IsPayment (decode_envelope third_parties (some (codes "h")))
decode_envelope-IsPayment_example = decode_envelope-IsPayment third_parties (some (codes "h"))

challenge_runs : build_challenge bob (codes "u") (pos 7) 300 97 ≡ ok challenge
unfolding build_challenge is_address strip_prefix chop_newline all_hex get_token_config
    x402_rail_for lookup network_of decimal
challenge_runs = refl

token_runs : get_token_config 97 ≡ ok testnet_token
unfolding get_token_config x402_rail_for lookup
token_runs = refl

token_valid : is_address testnet_token.address ≡ true
unfolding is_address strip_prefix chop_newline all_hex is_hex
token_valid = refl

hex_valid : is_hex_text signature ≡ true
unfolding is_hex_text strip_prefix chop_newline all_hex is_hex
hex_valid = refl

authorization-IsAuthorization : IsAuthorization authorization
unfolding is_address is_hex_text strip_prefix chop_newline all_hex is_hex
authorization-IsAuthorization = record { from = refl; to = refl; nonce = refl }

short : length (decimal 97) ≤ 4300
unfolding decimal
short = omega arith

header_full : is_empty (strip (codes "h")) ≡ false
unfolding strip lstrip is_space
header_full = refl

short_value : length (decimal 7) ≤ 4300
unfolding decimal
short_value = omega arith

short_after : length (decimal 100) ≤ 4300
unfolding decimal
short_after = omega arith

short_before : length (decimal 400) ≤ 4300
unfolding decimal
short_before = omega arith

honest_payment_accepted_example :
    (d : DecodedPayment) × (decode_envelope third_parties (some (codes "h")) ≡ ok d)
    × (verify_payment third_parties d 97 testnet_token bob 7 alice 300 ≡ ok tt)
honest_payment_accepted_example =
    honest_payment_accepted third_parties ascii_digit-IsAscii bob (codes "u") 300 97 token_runs
      token_valid authorization challenge_runs authorization-IsAuthorization refl short short_value
      short_after short_before 300 (omega arith) (omega arith) signature (codes "m") alice alice
      hex_valid refl refl refl (codes "h") header_full refl
