-- ===== src/Examples/World.antt =====
-- A small world: two wallets, a store with one hire of each rail, and third-party code as tables.
use bnb_agent_marketplace.Base.{
  arith, Text, codes, ℕ, ◌-◌, leb, ◌&&◌, if◌then◌else◌, Option, none, some, [], ◌∷◌, true, false,
  text_eq,
}
use bnb_agent_marketplace.Errors.{ok}
use bnb_agent_marketplace.Offer.{Web}
use bnb_agent_marketplace.Offer.Guard.{Url, Address, Net, parsed}
use bnb_agent_marketplace.Hires.Jobs.{Abi}
use bnb_agent_marketplace.Json.{Fields, str, obj, arr, cons, nil, field, end}
use bnb_agent_marketplace.Config.{
  Rail, Settings, u_token_name, u_token_version, x402_u_token_address_testnet,
}
use bnb_agent_marketplace.Payment.Types.{
  TokenConfig, Authorization, Externals, signer, value, eip3009_rail,
}
use bnb_agent_marketplace.Payment.Challenge.{Challenge}
use bnb_agent_marketplace.Payment.Validators.Numeric.{IsAscii}
use bnb_agent_marketplace.Payment.Envelope.Honest.{answer}
use bnb_agent_marketplace.Hires.Types.{HiredAgent, pending, AgentRow, Store}

abbrev pub ascii_digit : ℕ → Option ℕ
ascii_digit c = if leb 48 c && leb c 57 then some (c - 48) else none

pub ascii_digit-IsAscii : IsAscii ascii_digit
ascii_digit-IsAscii d h = ground arith

abbrev pub alice : Text
alice = codes "0xAaaaaaaaaaaaaaaaaaaaaaaaaaaaaaaaaaaaaaaa"

abbrev pub bob : Text
bob = codes "0xbbbbbbbbbbbbbbbbbbbbbbbbbbbbbbbbbbbbbbbb"

abbrev pub router : Text
router = codes "0xcccccccccccccccccccccccccccccccccccccccc"

abbrev pub testnet_token : TokenConfig
testnet_token = record {
  address = x402_u_token_address_testnet;
  name = u_token_name;
  version = u_token_version;
}

abbrev pub authorization : Authorization
authorization = record {
  from = alice;
  to = bob;
  value = 7;
  valid_after = 100;
  valid_before = 400;
  nonce = codes "0x01";
}

abbrev pub challenge : Challenge
challenge = record {
  x402_version = 2;
  error = codes "payment required";
  resource_url = codes "u";
  accept = record {
    scheme = codes "exact";
    network = codes "eip155:97";
    asset = x402_u_token_address_testnet;
    pay_to = bob;
    amount = codes "7";
    max_timeout_seconds = 300;
    extra_name = u_token_name;
    extra_version = u_token_version;
    asset_transfer_method = eip3009_rail;
  };
}

abbrev pub signature : Text
signature = codes "0x02"

abbrev pub third_parties : Externals
third_parties = record {
  digit = ascii_digit;
  load = λ _. value (obj (answer challenge authorization signature));
  encode_typed_data = λ _. some (codes "m");
  recover_message = λ _ _. signer alice;
}

abbrev pub settings : Settings
settings = record {
  x402_facilitator_key = codes "k";
  erc8183_enabled = true;
  erc8183_chain_id = 56;
  erc8183_commerce_address = router;
  erc8183_router_address = router;
  erc8183_u_token_address = x402_u_token_address_testnet;
  erc8183_policy_address = router;
  erc8183_job_expiry_seconds = 3600;
}

-- A hire by Alice of Bob's agent for 7 wei, pending until second 350.
abbrev pub pending_hire : HiredAgent
pending_hire = record {
  id = 1;
  address = alice;
  agent_id = codes "97:1";
  status = pending;
  tx_hash = none;
  amount = some 7;
  token = some x402_u_token_address_testnet;
  rail = eip3009_rail;
  pay_to = some bob;
  challenge_expiry = some 350000000;
  amount_agent = some 7;
  pay_to_agent = some bob;
  asset_agent = some x402_u_token_address_testnet;
  network_agent = some (codes "eip155:97");
  job_id = none;
  chain_id = none;
  provider_address = none;
  budget_wei = none;
  updated_at = 50000000;
}

abbrev pub escrow_hire : HiredAgent
escrow_hire = record pending_hire {
  id = 2;
  rail = codes "erc8183";
  amount = none;
  pay_to = none;
  challenge_expiry = none;
  network_agent = none;
  chain_id = some 56;
  provider_address = some bob;
  budget_wei = some 7;
}

abbrev pub bob_agent : AgentRow
bob_agent = record {
  agent_id = codes "97:1";
  agent_url = some (codes "https://bob.example/a");
  a2a_endpoint = none;
  agent_wallet = some bob;
}

abbrev pub store : Store
store = record { agents = bob_agent ∷ []; hires = pending_hire ∷ escrow_hire ∷ []; next_id = 3 }

abbrev pub testnet_rail : Rail
testnet_rail = record {
  chain_id = 97;
  rpc_url = codes "https://bsc-testnet-rpc.publicnode.com";
  token_address = x402_u_token_address_testnet;
  token_name = u_token_name;
  token_version = u_token_version;
}

-- The answer of Bob's agent to a probe, and the network around it.
abbrev pub accepts : Fields
accepts = field (codes "payTo") (str bob) (
    field (codes "amount") (str (codes "7")) (
      field (codes "asset") (str x402_u_token_address_testnet)
        (field (codes "network") (str (codes "eip155:97")) end)))

abbrev pub offer_payload : Fields
offer_payload = field (codes "accepts") (arr (cons (obj accepts) nil)) end

abbrev pub bob_url : Url
bob_url = record { scheme = codes "https"; host = codes "h"; port = none }

abbrev pub public_address : Address
public_address = record {
  is_private = false;
  is_loopback = false;
  is_link_local = false;
  is_reserved = false;
  is_multicast = false;
  is_unspecified = false;
}

abbrev pub net : Net
net = record {
  parse_url = λ _. parsed bob_url;
  ip_address = λ s. if text_eq s (codes "h") then none else some public_address;
  getaddrinfo = λ _ _. some (codes "1" ∷ []);
}

abbrev pub web : Web
web = record {
  net = net;
  get_request = λ _. some (record { status_code = 402; payment_required = some (codes "h") });
  post_request = λ _. none;
  load = λ _. value (obj offer_payload);
  digit = ascii_digit;
}

abbrev pub abi : Abi
abi = record {
  selector = λ _. codes "00000000";
  encode = λ _. ok (codes "01");
  digit = ascii_digit;
}
