-- ===== src/Offer.antt =====
-- app/services/x402_client.py: the probe of an agent's own x402 offer.
pub mod Guard
pub mod Support
pub mod Safe
pub mod Outcomes
use bnb_agent_marketplace.Offer.Guard.{Url, Net, validate_probe_url}
use bnb_agent_marketplace.Base.{
  ℕ, Bool, [], false, Option, none, some, Text, codes, text_eq, lower, strip_prefix, is_empty, ◌==◌,
  if◌then◌else◌, ◌&&◌,
}
use bnb_agent_marketplace.Base.Int.{pos}
use bnb_agent_marketplace.Errors.{
  Result, ok, err, type_error, attribute_error, recursion_error, ◌>>=◌, ◌>>◌, value_error, Error,
}
use bnb_agent_marketplace.Json.{
  float, Json, null, int, bool, str, obj, arr, nil, cons, Fields, end, get,
}
use bnb_agent_marketplace.Config.{x402_rail_for}
use bnb_agent_marketplace.Payment.Types.{Loaded, value, malformed, too_long, too_deep}
use bnb_agent_marketplace.Payment.Validators.{is_address, numeric}

-- `asset` and `network` are whatever JSON stood there. `price_usd` is `amount_wei` over 10^18.
pub record AgentOffer : Type 0 where
  pub pay_to : Text
  pub amount_wei : ℕ
  pub asset : Json
  pub network : Json

pub record Response : Type 0 where
  pub status_code : ℕ
  pub payment_required : Option Text

-- What the probe reaches outside of the repository: URL parsing and name resolution, the two HTTP
-- requests (`none` where httpx raises), the decoding of a header, Unicode's digits.
pub record Web : Type 0 where
  pub net : Net
  pub get_request : Url → Option Response
  pub post_request : Url → Option Response
  pub load : Text → Loaded
  pub digit : ℕ → Option ℕ

-- The four values of `accepts[0]`.
pub record Quote : Type 0 where
  pub pay_to : Json
  pub amount : Json
  pub asset : Json
  pub network : Json

-- Subscripts that raise `KeyError`, `IndexError` or `TypeError`, all caught.
unfoldable pub first_accept : Json → Option Fields
unfolding get
first_accept (obj payload) = elim (get (codes "accepts") payload) [
  | none ↦ none
  | some accepts ↦ elim accepts [
    | arr items ↦ elim items [
      | nil ↦ none
      | cons first _ ↦ elim first [ obj fields ↦ some fields | _ ↦ none ]
    ]
    | _ ↦ none
  ]
]
first_accept _ = none

unfoldable pub quote_of : Fields → Option Quote
unfolding get
quote_of accept = elim (get (codes "payTo") accept) [
  | none ↦ none
  | some pay_to ↦ elim (get (codes "amount") accept) [
    | none ↦ none
    | some amount ↦ elim (get (codes "asset") accept) [
      | none ↦ none
      | some asset ↦ elim (get (codes "network") accept) [
        | none ↦ none
        | some network ↦
            some (record { pay_to = pay_to; amount = amount; asset = asset; network = network })
      ]
    ]
  ]
]

module _ (web : Web) where
  -- `_AMOUNT_RE.match(str(amount))` and `int(amount)`
  unfoldable pub amount_of : Json → Option (Result ℕ)
  unfolding numeric
  amount_of (int (pos n)) = some (ok n)
  amount_of (str s) = numeric web.digit s
  amount_of _ = none

  unfoldable pub checked_offer : Quote → Text → Option (Result ℕ) → Result (Option AgentOffer)
  checked_offer quote pay_to none = ok none
  checked_offer quote pay_to (some r) = do
    amount ← r
    ok (
        some (record {
          pay_to = pay_to;
          amount_wei = amount;
          asset = quote.asset;
          network = quote.network;
        }))

  -- The shape guards stand outside of the `try`: a `payTo` that is no text raises a `TypeError`.
  unfoldable pub offer_to : Quote → Json → Result (Option AgentOffer)
  offer_to quote (str pay_to) =
      if is_address pay_to then checked_offer quote pay_to (amount_of quote.amount) else ok none
  offer_to quote _ = err type_error

  unfoldable pub offer_of : Quote → Result (Option AgentOffer)
  offer_of quote = offer_to quote quote.pay_to

  unfoldable pub offer_in : Json → Result (Option AgentOffer)
  offer_in payload = elim (first_accept payload) [
    | none ↦ ok none
    | some accept ↦ elim (quote_of accept) [ none ↦ ok none | some quote ↦ offer_of quote ]
  ]

  -- `except (…)`; a `RecursionError` of the JSON parser is not among those caught.
  unfoldable pub offer_loaded : Loaded → Result (Option AgentOffer)
  offer_loaded (value payload) = offer_in payload
  offer_loaded malformed = ok none
  offer_loaded too_long = ok none
  offer_loaded too_deep = err recursion_error

  unfoldable pub offer_header : Option Text → Result (Option AgentOffer)
  offer_header none = ok none
  offer_header (some header) = if is_empty header then ok none else offer_loaded (web.load header)

  -- `_parse_offer_response`
  unfoldable pub parse_offer_response : Response → Result (Option AgentOffer)
  parse_offer_response resp =
      if resp.status_code == 402 then offer_header resp.payment_required else ok none

  -- The handler around the requests: an `OSError` of `getaddrinfo` is a `ValueError` by then.
  unfoldable pub not_caught : Error → Result (Option AgentOffer)
  not_caught value_error = ok none
  not_caught e = err e

  unfoldable pub offer_response : Option Response → Result (Option AgentOffer)
  offer_response none = ok none
  offer_response (some resp) = parse_offer_response resp

  -- The retry as a POST where the endpoint answers 405.
  unfoldable pub probe_target : Url → Option Response → Result (Option AgentOffer)
  probe_target target none = ok none
  probe_target target (some resp) =
      if resp.status_code == 405
      then offer_response (web.post_request target)
      else parse_offer_response resp

  unfoldable pub probe_agent_offer : Text → Result (Option AgentOffer)
  probe_agent_offer url = elim (validate_probe_url web.net url) [
    | err e ↦ not_caught e
    | ok target ↦ probe_target target (web.get_request target)
  ]

-- `offer.network or ""` under `re.match`: an empty value does not match, another one that is no text
-- raises a `TypeError`.
unfoldable pub network_text : Json → Result Text
network_text (str s) = ok s
network_text null = ok []
network_text (bool false) = ok []
network_text (int (pos n)) = if n == 0 then ok [] else err type_error
network_text (float (pos n) whole) = if whole && n == 0 then ok [] else err type_error
network_text (arr nil) = ok []
network_text (obj end) = ok []
network_text _ = err type_error

-- `offer.asset.lower() == rail.token_address.lower()`
unfoldable pub asset_is : Text → Json → Result Bool
unfolding text_eq lower
asset_is address (str s) = ok (text_eq (lower s) (lower address))
asset_is address _ = err attribute_error

unfoldable pub is_supported_offer : (ℕ → Option ℕ) → AgentOffer → Result Bool
is_supported_offer digit offer = do
  network ← network_text offer.network
  elim (strip_prefix (codes "eip155:") network) [
    | none ↦ ok false
    | some rest ↦ elim (numeric digit rest) [
      | none ↦ ok false
      | some r ↦ do
        chain_id ← r
        elim (x402_rail_for chain_id) [
          | none ↦ ok false
          | some rail ↦ asset_is rail.token_address offer.asset
        ]
    ]
  ]
