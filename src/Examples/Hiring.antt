-- ===== src/Examples/Hiring.antt =====
-- Hires of the small world: one is created, one is swept, one is linked to its job.
use bnb_agent_marketplace.Payment.Validators.Decimal.{decimal}
use bnb_agent_marketplace.Payment.Validators.{digits_of, is_address, number, numeric, read_digits}
use bnb_agent_marketplace.Config.{x402_rail_for}
use bnb_agent_marketplace.Offer.Guard.{
  validate_probe_url, validate_parsed, validate_host, check_infos, any_blocked, blocked, strip_zone,
  blocked_ip, port_or_443,
}
use bnb_agent_marketplace.Errors.{Error, ok, err, library_error}
use bnb_agent_marketplace.Base.{
  Text, codes, ℕ, ◌≡◌, ◌⊎◌, refl, some, List, arith, strip, text_eq, lower, lookup, digit_below,
  grouped, letter, parse_int, prefixed, signed, unsigned, value_in, all_hex, chop_newline, is_hex,
  is_space, lower_char, lstrip, strip_prefix, ◌^◌, ◌≤◌, ◌<◌, true,
}
use bnb_agent_marketplace.Base.Int.{pos}
use bnb_agent_marketplace.Json.{str, as_str, get}
use bnb_agent_marketplace.Payment.Types.{DecodedPayment, TokenConfig}
use bnb_agent_marketplace.Payment.Challenge.{
  build_challenge, Challenge, get_token_config, network_of,
}
use bnb_agent_marketplace.Payment.Broadcast.{Call, fake_broadcast}
use bnb_agent_marketplace.Offer.{
  AgentOffer, probe_agent_offer, probe_target, parse_offer_response, offer_header, offer_loaded,
  offer_in, amount_of, asset_is, checked_offer, first_accept, is_supported_offer, network_text,
  not_caught, offer_of, offer_response, offer_to, quote_of,
}
use bnb_agent_marketplace.Exec.{Exec}
use bnb_agent_marketplace.Hires.Types.{HiredAgent, Store, paid, find_agent, find_hire}
use bnb_agent_marketplace.Hires.Create.{
  amount_fits, hire_url, quote_hire, create_hire, hire_row, supported_offer, chain_of,
  config_of_offer, rail_config, second_part, unknown_to_unavailable, until_colon,
}
use bnb_agent_marketplace.Hires.Creation.{
  created, IsCreated, create_hire-IsCreated, create_hire_outcome,
}
use bnb_agent_marketplace.Hires.Escrow.{
  HireEscrowSubmit, submit_escrow_hire, submittable, submit_fields, load_owned_hire,
}
use bnb_agent_marketplace.Hires.Submit.{submit}
use bnb_agent_marketplace.Hires.Table.{IsLedger}
use bnb_agent_marketplace.Hires.Ledger.{reachable-IsLedger}
use bnb_agent_marketplace.Hires.Steps.{Reachable, create_step, submit_step, here, after}
use bnb_agent_marketplace.Examples.World.{
  alice, bob, testnet_token, third_parties, settings, escrow_hire, store, web, abi,
}

abbrev offer : AgentOffer
offer = record {
  pay_to = bob;
  amount_wei = 7;
  asset = str testnet_token.address;
  network = str (codes "eip155:97");
}

abbrev new_hire : HiredAgent
new_hire = hire_row 3 alice (codes "97:1") offer testnet_token 50000000

quote_runs : quote_hire web (codes "97:1") store ≡ ok (offer, 97, testnet_token)
unfolding quote_hire find_agent supported_offer probe_agent_offer validate_probe_url strip
    validate_parsed validate_host check_infos any_blocked blocked strip_zone blocked_ip probe_target
    parse_offer_response offer_header offer_loaded submit_escrow_hire submittable submit_fields
    load_owned_hire find_hire text_eq lower offer_in lookup digit_below grouped letter parse_int
    prefixed signed unsigned value_in all_hex chop_newline is_hex is_space lower_char lstrip
    strip_prefix x402_rail_for chain_of config_of_offer rail_config second_part
    unknown_to_unavailable until_colon as_str get port_or_443 amount_of asset_is checked_offer
    first_accept is_supported_offer network_text not_caught offer_of offer_response offer_to
    quote_of get_token_config digits_of is_address number numeric read_digits
quote_runs = refl

abbrev challenge_3 : Challenge
challenge_3 = record {
  x402_version = 2;
  error = codes "payment required";
  resource_url = codes "b/api/hires/3";
  accept = record {
    scheme = codes "exact";
    network = codes "eip155:97";
    asset = testnet_token.address;
    pay_to = bob;
    amount = codes "7";
    max_timeout_seconds = 300;
    extra_name = testnet_token.name;
    extra_version = testnet_token.version;
    asset_transfer_method = codes "eip3009";
  };
}

challenge_3_runs : build_challenge bob (hire_url (codes "b/") 3) (pos 7) 300 97 ≡ ok challenge_3
unfolding build_challenge submit_escrow_hire submittable submit_fields load_owned_hire find_hire
    text_eq lower is_address strip_prefix chop_newline all_hex get_token_config x402_rail_for lookup
    hire_url network_of decimal
challenge_3_runs = refl

amount_fits_runs : amount_fits 7 ≡ true
unfolding amount_fits
amount_fits_runs = refl

create_runs :
    (created web (codes "97:1") (codes "b/") alice 50000000 store).0 ≡ ok (new_hire, challenge_3)
unfolding create_hire
create_runs = ground (arith, amount_fits_runs, quote_runs, challenge_3_runs)

create_hire-IsCreated_example :
    IsCreated web (codes "97:1") (codes "b/") alice 50000000 store new_hire challenge_3
create_hire-IsCreated_example =
    create_hire-IsCreated web (codes "97:1") (codes "b/") alice 50000000 store create_runs

create_hire_outcome_example :
    ((q : AgentOffer × ℕ × TokenConfig) × (out : HiredAgent × Challenge) × (quote_hire web
          (codes "97:1")
          store
        ≡ ok q)
      × (q.0.amount_wei < 10 ^ 20)
      × ((created web (codes "97:1") (codes "b/") alice 50000000 store).0 ≡ ok out))
    ⊎ ((q : AgentOffer × ℕ × TokenConfig) × (quote_hire web (codes "97:1") store ≡ ok q)
        × (10 ^ 20 ≤ q.0.amount_wei)
        × (created web (codes "97:1") (codes "b/") alice 50000000 store
            ≡ (err library_error, store)))
    ⊎ ((e : Error) × (quote_hire web (codes "97:1") store ≡ err e)
        × (created web (codes "97:1") (codes "b/") alice 50000000 store ≡ (err e, store)))
create_hire_outcome_example =
    create_hire_outcome web (codes "97:1") (codes "b/") alice 50000000 store

abbrev job_tx : Text
job_tx = codes "0x0000000000000000000000000000000000000000000000000000000000000001"

abbrev report : HireEscrowSubmit
report = record { job_id = 5; tx_hash = job_tx }

abbrev other_report : HireEscrowSubmit
other_report = record report { job_id = 6 }

abbrev linked : HiredAgent
linked = record escrow_hire {
  job_id = some 5;
  tx_hash = some job_tx;
  status = paid;
  updated_at = 60000000;
}

abbrev linked_store : Store
linked_store = (submit abi settings 2 report alice 60000000 store).1

fields_ok : submit_fields report ≡ ok tt
unfolding submit_fields
fields_ok = refl

other_fields_ok : submit_fields other_report ≡ ok tt
unfolding submit_fields
other_fields_ok = refl

abbrev fake : DecodedPayment → TokenConfig → Text → Text → ℕ → Exec (List Call) Text
fake = fake_broadcast (codes "0xabc")

abbrev created_store : Store
created_store = (create_hire web (codes "97:1") (codes "b/") alice 50000000 store).1

abbrev requests :
    Reachable web third_parties abi settings fake store
      (submit_escrow_hire abi settings 2 report alice 60000000 created_store).1
requests =
    after (after here (create_step (codes "97:1") (codes "b/") alice 50000000 store))
      (submit_step 2 report alice 60000000 created_store)

store-IsLedger : IsLedger store
store-IsLedger = (
  ((omega arith, λ p. absurd (cc)), ((omega arith, λ p. absurd (cc)), tt)),
  (((λ e. absurd (omega (arith, e))), tt), (tt, tt)),
)

reachable-IsLedger_example :
    IsLedger (submit_escrow_hire abi settings 2 report alice 60000000 created_store).1
reachable-IsLedger_example =
    reachable-IsLedger web third_parties abi settings fake requests store-IsLedger
