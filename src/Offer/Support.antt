-- ===== src/Offer/Support.antt =====
-- What an offer that the marketplace supports is.
use bnb_agent_marketplace.Errors.{Result-cases, ok}
use bnb_agent_marketplace.Base.{
  Option-cases, Text, codes, text_eq_iff, lower, strip_prefix, ℕ, ◌≡◌, refl, inl, inr, true, Option,
  some, arith, Bool-cases, lookup, text_eq, lower_char, chop_newline, all_hex, ap, false, ◌++◌,
}
use bnb_agent_marketplace.Json.{Json, str}
use bnb_agent_marketplace.Config.{Rail, x402_rail_for}
use bnb_agent_marketplace.Payment.Validators.{numeric, is_address}
use bnb_agent_marketplace.Payment.Validators.Lower.{is_address-lower}
use bnb_agent_marketplace.Offer.{AgentOffer, is_supported_offer, network_text, asset_is}

-- The network is `eip155:` and digits of a chain of the rail map, and the asset is that rail's token up
-- to letter case.
pub record IsSupported (digit : ℕ → Option ℕ) (offer : AgentOffer) : Type 0 where
  pub network : Text
  pub digits : Text
  pub chain_id : ℕ
  pub rail : Rail
  pub asset : Text
  pub on_network : network_text offer.network ≡ ok network
  pub prefix : strip_prefix (codes "eip155:") network ≡ some digits
  pub chain : numeric digit digits ≡ some (ok chain_id)
  pub known : x402_rail_for chain_id ≡ some rail
  pub token : offer.asset ≡ str asset
  pub same : lower asset ≡ lower rail.token_address

asset_is-Same :
    (address : Text) (v : Json)
    → asset_is address v ≡ ok true
    → (s : Text) × (v ≡ str s) × (lower s ≡ lower address)
unfolding asset_is
asset_is-Same address (str s) h = (s, refl, ground (arith, text_eq_iff (lower s) (lower address)))
asset_is-Same address _ h = absurd (cc)

module _ (digit : ℕ → Option ℕ) (offer : AgentOffer) where
  -- An offer that is supported is on the network of a chain of the rail map, and its asset is that
  -- rail's token up to letter case.
  pub is_supported_offer-IsSupported :
      is_supported_offer digit offer ≡ ok true → IsSupported digit offer
  unfolding is_supported_offer
  is_supported_offer-IsSupported h = elim (Result-cases (network_text offer.network)) [
    | inr (_, e) ↦ absurd (ground arith)
    | inl (net, e1) ↦ elim (Option-cases (strip_prefix (codes "eip155:") net)) [
      | inl e ↦ absurd (ground arith)
      | inr (rest, e2) ↦ elim (Option-cases (numeric digit rest)) [
        | inl e ↦ absurd (ground arith)
        | inr (r, e3) ↦ elim (Result-cases r) [
          | inr (_, e) ↦ absurd (ground arith)
          | inl (n, e4) ↦ elim (Option-cases (x402_rail_for n)) [
            | inl e ↦ absurd (ground arith)
            | inr (rail, e5) ↦
                let (s, e6, e7) = asset_is-Same rail.token_address offer.asset (ground arith) in
                record {
                  network = net;
                  digits = rest;
                  chain_id = n;
                  rail = rail;
                  asset = s;
                  on_network = e1;
                  prefix = e2;
                  chain = cc;
                  known = e5;
                  token = e6;
                  same = e7;
                }
          ]
        ]
      ]
    ]
  ]

abbrev polygon_token : Text
polygon_token = codes "0x3c499c542cEF5E3811e1792ce70d8cC03d50c3359"

polygon_token-lower : is_address (lower polygon_token) ≡ false
unfolding is_address strip_prefix chop_newline all_hex lower lower_char
polygon_token-lower = refl

polygon_token-ne :
    (s : Text) → is_address s ≡ true → text_eq (lower s) (lower polygon_token) ≡ false
polygon_token-ne s valid = elim (Bool-cases (text_eq (lower s) (lower polygon_token))) [
  | inr e ↦ e
  | inl e ↦
      let same : lower s ≡ lower polygon_token = (text_eq_iff _ _).0 e in
      absurd (cc (is_address-lower s valid, polygon_token-lower, ap is_address same))
]

-- An offer on Polygon (137) whose asset is an address is never supported, whatever its asset: the
-- token that the rail map has for that chain is no address.
pub polygon_unsupported :
    (digit : ℕ → Option ℕ) (offer : AgentOffer) (digits s : Text)
    → offer.network ≡ str (codes "eip155:" ++ digits)
    → numeric digit digits ≡ some (ok 137)
    → offer.asset ≡ str s
    → is_address s ≡ true
    → is_supported_offer digit offer ≡ ok false
unfolding is_supported_offer network_text asset_is strip_prefix x402_rail_for lookup
polygon_unsupported digit offer digits s net chain asset valid =
    ground (arith, polygon_token-ne s valid)
