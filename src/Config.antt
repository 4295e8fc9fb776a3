-- ===== src/Config.antt =====
-- app/config.py: the settlement rails and the settings that the payment code reads.
pub mod Rails
use bnb_agent_marketplace.Base.{
  ℕ, Bool, not, List, [], ◌∷◌, Option, Text, codes, lookup, strip, is_empty,
}

pub record Rail : Type 0 where
  pub chain_id : ℕ
  pub rpc_url : Text
  pub token_address : Text
  pub token_name : Text
  pub token_version : Text

abbrev pub x402_u_token_address_mainnet : Text
x402_u_token_address_mainnet = codes "0xcE24439F2D9C6a2289F741120FE202248B666666"

abbrev pub x402_u_token_address_testnet : Text
x402_u_token_address_testnet = codes "0xc70B8741B8B07A6d61E54fd4B20f22Fa648E5565"

abbrev pub u_token_name : Text
u_token_name = codes "United Stables"

abbrev pub u_token_version : Text
u_token_version = codes "1"

abbrev pub x402_rail_map : List (ℕ × Rail)
x402_rail_map =
    (
      8453,
      record {
        chain_id = 8453;
        rpc_url = codes "https://mainnet.base.org";
        token_address = codes "0x833589fCD6eDb6E08f4c7C32D4f71b54bdA02913";
        token_name = codes "USD Coin";
        token_version = codes "2";
      },
    )
    ∷ (
      137,
      record {
        chain_id = 137;
        rpc_url = codes "https://polygon-rpc.com";
        token_address = codes "0x3c499c542cEF5E3811e1792ce70d8cC03d50c3359";
        token_name = codes "USD Coin";
        token_version = codes "2";
      },
    )
    ∷ (
      43114,
      record {
        chain_id = 43114;
        rpc_url = codes "https://api.avax.network/ext/bc/C/rpc";
        token_address = codes "0xB97EF9Ef8734C71904D8002F8b6Bc66Dd9c48A6E";
        token_name = codes "USD Coin";
        token_version = codes "2";
      },
    )
    ∷ (
      56,
      record {
        chain_id = 56;
        rpc_url = codes "https://bsc-dataseed.bnbchain.org";
        token_address = x402_u_token_address_mainnet;
        token_name = u_token_name;
        token_version = u_token_version;
      },
    )
    ∷ (
      97,
      record {
        chain_id = 97;
        rpc_url = codes "https://bsc-testnet-rpc.publicnode.com";
        token_address = x402_u_token_address_testnet;
        token_name = u_token_name;
        token_version = u_token_version;
      },
    )
    ∷ []

-- The fields of `Settings` that the modelled services read.
pub record Settings : Type 0 where
  pub x402_facilitator_key : Text
  pub erc8183_enabled : Bool
  pub erc8183_chain_id : ℕ
  pub erc8183_commerce_address : Text
  pub erc8183_router_address : Text
  pub erc8183_u_token_address : Text
  pub erc8183_policy_address : Text
  pub erc8183_job_expiry_seconds : ℕ

-- `Settings.x402_payments_configured`
unfoldable pub x402_payments_configured : Settings → Bool
x402_payments_configured s = not (is_empty (strip s.x402_facilitator_key))

-- `Settings.x402_rail_for`
unfoldable pub x402_rail_for : ℕ → Option Rail
x402_rail_for chain_id = lookup chain_id x402_rail_map
