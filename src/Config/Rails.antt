-- ===== src/Config/Rails.antt =====
-- The settlement tokens of the rail map.
use bnb_agent_marketplace.Payment.Types.{zero_address}
use bnb_agent_marketplace.Base.{
  ◌==◌, lookup, ℕ, ◌≡◌, not, some, arith, lookup-All, text_eq, strip_prefix, chop_newline, all_hex,
  refl, false,
}
use bnb_agent_marketplace.Config.{Rail, x402_rail_for, x402_rail_map}
use bnb_agent_marketplace.Payment.Validators.{is_address}

-- Exactly the five chains of the map have a rail, and it names its own chain.
pub rail_chain :
    (chain_id : ℕ) {rail : Rail} → x402_rail_for chain_id ≡ some rail → rail.chain_id ≡ chain_id
unfolding x402_rail_for lookup
rail_chain chain_id h = ground arith

-- The token of every rail but Polygon's (137) is an address; Polygon's has 41 digits and is none.
pub rail_token_IsAddress :
    (chain_id : ℕ) {rail : Rail}
    → x402_rail_for chain_id ≡ some rail
    → (is_address rail.token_address ≡ not (chain_id == 137))
unfolding x402_rail_for lookup is_address strip_prefix chop_newline all_hex
rail_token_IsAddress chain_id h = ground arith

-- No rail settles at the zero address.
pub zero_address-ne-token :
    (chain_id : ℕ) {rail : Rail}
    → x402_rail_for chain_id ≡ some rail
    → text_eq zero_address rail.token_address ≡ false
unfolding x402_rail_for text_eq
zero_address-ne-token chain_id h =
    lookup-All (λ (r : Rail). text_eq zero_address r.token_address ≡ false) chain_id x402_rail_map
      (refl, (refl, (refl, (refl, (refl, tt))))) h
