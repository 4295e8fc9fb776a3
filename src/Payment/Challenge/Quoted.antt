-- ===== src/Payment/Challenge/Quoted.antt =====
-- What a challenge that is built says.
use bnb_agent_marketplace.Errors.{Result-cases, ok}
use bnb_agent_marketplace.Base.{Text, codes, ℕ, ◌≤◌, ◌≡◌, inl, inr, true, arith}
use bnb_agent_marketplace.Base.Int.{pos}
use bnb_agent_marketplace.Payment.Types.{TokenConfig}
use bnb_agent_marketplace.Payment.Validators.{is_address}
use bnb_agent_marketplace.Payment.Validators.Decimal.{decimal}
use bnb_agent_marketplace.Payment.Challenge.{
  Challenge, build_challenge, get_token_config, network_of,
}

-- The challenge quotes its arguments and the rail's token.
pub record Quotes (c : Challenge) (pay_to : Text) (url : Text) (amount : ℕ) (timeout : ℕ)
    (chain_id : ℕ) (cfg : TokenConfig) : Type 0 where
  pub version : c.x402_version ≡ 2
  pub resource : c.resource_url ≡ url
  pub scheme : c.accept.scheme ≡ codes "exact"
  pub network : c.accept.network ≡ network_of chain_id
  pub asset : c.accept.asset ≡ cfg.address
  pub payee : c.accept.pay_to ≡ pay_to
  pub amount_text : c.accept.amount ≡ decimal amount
  pub window : c.accept.max_timeout_seconds ≡ timeout
  pub in_range : (1 ≤ timeout) × (timeout ≤ 480)
  pub valid_payee : is_address pay_to ≡ true

module _ (pay_to : Text) (url : Text) (amount : ℕ) (timeout : ℕ) (chain_id : ℕ) {cfg : TokenConfig}
    (known : get_token_config chain_id ≡ ok cfg) where
  -- A challenge that is built for a chain with a rail quotes the payee, URL, amount, timeout and chain that
  -- it was given and the rail's token; the timeout is within its range and the payee is an address.
  pub build_challenge-Quotes :
      {c : Challenge}
      → build_challenge pay_to url (pos amount) timeout chain_id ≡ ok c
      → Quotes c pay_to url amount timeout chain_id cfg
  unfolding build_challenge
  build_challenge-Quotes h = ground arith

  -- A valid payee and timeout on a known chain always get a challenge.
  pub build_challenge_total :
      is_address pay_to ≡ true
      → 1 ≤ timeout
      → timeout ≤ 480
      → (c : Challenge) × (build_challenge pay_to url (pos amount) timeout chain_id ≡ ok c)
  build_challenge_total v lo hi =
      elim (Result-cases (build_challenge pay_to url (pos amount) timeout chain_id)) [
        | inl done ↦ done
        | inr (e, failed) ↦ absurd (unfold build_challenge in ground arith)
      ]
