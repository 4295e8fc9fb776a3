-- ===== src/Payment/Challenge.antt =====
-- `get_token_config` and `build_challenge` of app/services/payment.py.
pub mod Quoted
use bnb_agent_marketplace.Base.{ℕ, not, ◌&&◌, none, some, ◌++◌, Text, codes, leb}
use bnb_agent_marketplace.Base.Int.{ℤ, pos, negsuc}
use bnb_agent_marketplace.Errors.{
  Result, ok, err, validation_error, unknown_rail, ◌>>=◌, ◌>>◌, raise_if,
}
use bnb_agent_marketplace.Config.{x402_rail_for}
use bnb_agent_marketplace.Payment.Types.{TokenConfig, eip3009_rail, max_timeout_seconds}
use bnb_agent_marketplace.Payment.Validators.{validate_address}
use bnb_agent_marketplace.Payment.Validators.Decimal.{decimal}

-- The one entry of `accepts`, with `extra` spread out.
pub record Accept : Type 0 where
  pub scheme : Text
  pub network : Text
  pub asset : Text
  pub pay_to : Text
  pub amount : Text
  pub max_timeout_seconds : ℕ
  pub extra_name : Text
  pub extra_version : Text
  pub asset_transfer_method : Text

pub record Challenge : Type 0 where
  pub x402_version : ℕ
  pub error : Text
  pub resource_url : Text
  pub accept : Accept

-- A chain with no rail raises `UnknownRail`.
unfoldable pub get_token_config : ℕ → Result TokenConfig
get_token_config chain_id = elim (x402_rail_for chain_id) [
  | none ↦ err unknown_rail
  | some rail ↦ ok (record {
    address = rail.token_address;
    name = rail.token_name;
    version = rail.token_version;
  })
]

-- `eip155:<chain_id>`
unfoldable pub network_of : ℕ → Text
network_of chain_id = codes "eip155:" ++ decimal chain_id

-- `not isinstance(amount_wei, int) or amount_wei < 0`
unfoldable pub check_amount : ℤ → Result ℕ
check_amount (pos n) = ok n
check_amount (negsuc _) = err validation_error

unfoldable pub build_challenge : Text → Text → ℤ → ℕ → ℕ → Result Challenge
unfolding check_amount validate_address
build_challenge pay_to resource_url amount_wei timeout_s chain_id = do
  validate_address pay_to >>= λ _. ok tt
  amount ← check_amount amount_wei
  raise_if (not (leb 1 timeout_s && leb timeout_s max_timeout_seconds)) validation_error
  token_cfg ← get_token_config chain_id
  ok (record {
    x402_version = 2;
    error = codes "payment required";
    resource_url = resource_url;
    accept = record {
      scheme = codes "exact";
      network = network_of chain_id;
      asset = token_cfg.address;
      pay_to = pay_to;
      amount = decimal amount;
      max_timeout_seconds = timeout_s;
      extra_name = token_cfg.name;
      extra_version = token_cfg.version;
      asset_transfer_method = eip3009_rail;
    };
  })
