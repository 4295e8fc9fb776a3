-- ===== src/Examples/Probing.antt =====
-- Probes of the small world's agent.
use bnb_agent_marketplace.Config.{x402_rail_for}
use bnb_agent_marketplace.Errors.{ok}
use bnb_agent_marketplace.Base.{
  codes, ◌≡◌, refl, some, true, false, ◌++◌, strip, text_eq, strip_prefix, lookup, chop_newline,
  all_hex,
}
use bnb_agent_marketplace.Json.{str}
use bnb_agent_marketplace.Payment.Validators.{is_address, numeric}
use bnb_agent_marketplace.Offer.{
  AgentOffer, first_accept, quote_of, is_supported_offer, network_text, asset_is,
}
use bnb_agent_marketplace.Offer.Guard.{
  validate_probe_url, parsed, validate_parsed, validate_host, check_infos, any_blocked, blocked,
  strip_zone, blocked_ip,
}
use bnb_agent_marketplace.Offer.Safe.{Guarded, validate_probe_url-Guarded}
use bnb_agent_marketplace.Offer.Support.{polygon_unsupported}
use bnb_agent_marketplace.Examples.World.{ascii_digit, bob, testnet_token, net, bob_url}

guard_runs : validate_probe_url net (codes "https://h") ≡ ok bob_url
unfolding validate_probe_url strip validate_parsed text_eq validate_host check_infos any_blocked
    blocked strip_zone blocked_ip is_supported_offer network_text strip_prefix numeric x402_rail_for
    lookup asset_is is_address chop_newline all_hex first_accept quote_of
guard_runs = refl

validate_probe_url-Guarded_example :
    (net.parse_url (codes "https://h") ≡ parsed bob_url) × Guarded net bob_url
validate_probe_url-Guarded_example = validate_probe_url-Guarded net (codes "https://h") guard_runs

abbrev offer : AgentOffer
offer = record {
  pay_to = bob;
  amount_wei = 7;
  asset = str testnet_token.address;
  network = str (codes "eip155:97");
}

supported_runs : is_supported_offer ascii_digit offer ≡ ok true
unfolding is_supported_offer network_text strip_prefix numeric x402_rail_for lookup asset_is
    is_address chop_newline all_hex first_accept text_eq quote_of
supported_runs = refl

abbrev polygon_offer : AgentOffer
polygon_offer = record offer { network = str (codes "eip155:" ++ codes "137") }

polygon_digits : numeric ascii_digit (codes "137") ≡ some (ok 137)
unfolding numeric
polygon_digits = refl

token_valid : is_address testnet_token.address ≡ true
unfolding is_address strip_prefix chop_newline all_hex first_accept text_eq quote_of
token_valid = refl

polygon_unsupported_example : is_supported_offer ascii_digit polygon_offer ≡ ok false
polygon_unsupported_example =
    polygon_unsupported ascii_digit polygon_offer (codes "137") testnet_token.address refl
      polygon_digits refl token_valid
