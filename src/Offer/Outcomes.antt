-- ===== src/Offer/Outcomes.antt =====
-- How a probe ends.
use bnb_agent_marketplace.Errors.{Ensures, Result, ok, err, Result-cases}
use bnb_agent_marketplace.Base.{
  Bool-cases, Text, ℕ, ◌≡◌, inl, inr, true, Option, none, some, Option-cases, arith,
}
use bnb_agent_marketplace.Json.{Json, str}
use bnb_agent_marketplace.Payment.Types.{Loaded, value}
use bnb_agent_marketplace.Payment.Validators.{is_address}
use bnb_agent_marketplace.Offer.Guard.{Url, validate_probe_url}
use bnb_agent_marketplace.Offer.{
  AgentOffer, Web, Quote, Response, amount_of, offer_of, offer_in, parse_offer_response,
  probe_agent_offer, first_accept, checked_offer, offer_to, quote_of, offer_loaded, offer_header,
  not_caught, offer_response, probe_target,
}

-- The payee of an offer is an address.
abbrev pub IsOffer : Option AgentOffer → Type 0
IsOffer none = Unit
IsOffer (some offer) = is_address offer.pay_to ≡ true

module _ (web : Web) where
  checked_offer-IsOffer :
      (q : Quote) (s : Text) (r : Option (Result ℕ))
      → is_address s ≡ true
      → Ensures IsOffer (checked_offer web q s r)
  unfolding checked_offer
  checked_offer-IsOffer q s none h = tt
  checked_offer-IsOffer q s (some (ok n)) h = h
  checked_offer-IsOffer q s (some (err e)) h = tt

  offer_to-IsOffer : (q : Quote) (v : Json) → Ensures IsOffer (offer_to web q v)
  unfolding offer_to
  offer_to-IsOffer q (str s) = elim (Bool-cases (is_address s)) [
    | inl h ↦ rw (h, Ensures) (checked_offer-IsOffer q s (amount_of web q.amount) h)
    | inr h ↦ rw (h, Ensures) tt
  ]
  offer_to-IsOffer q _ = tt

  offer_in-IsOffer : (payload : Json) → Ensures IsOffer (offer_in web payload)
  unfolding offer_in offer_of
  offer_in-IsOffer payload = elim (Option-cases (first_accept payload)) [
    | inl e ↦ ground arith
    | inr (accept, e) ↦ elim (Option-cases (quote_of accept)) [
      | inl e' ↦ ground arith
      | inr (q, e') ↦ ground (arith, offer_to-IsOffer q q.pay_to)
    ]
  ]

  offer_loaded-IsOffer : (l : Loaded) → Ensures IsOffer (offer_loaded web l)
  unfolding offer_loaded
  offer_loaded-IsOffer (value payload) = offer_in-IsOffer payload
  offer_loaded-IsOffer _ = tt

  parse_offer_response-IsOffer : (resp : Response) → Ensures IsOffer (parse_offer_response web resp)
  unfolding parse_offer_response offer_header
  parse_offer_response-IsOffer resp = elim (Option-cases resp.payment_required) [
    | inl e ↦ ground arith
    | inr (header, e) ↦ ground (arith, offer_loaded-IsOffer (web.load header))
  ]

  offer_response-IsOffer : (resp : Option Response) → Ensures IsOffer (offer_response web resp)
  unfolding offer_response
  offer_response-IsOffer none = tt
  offer_response-IsOffer (some resp) = parse_offer_response-IsOffer resp

  probe_target-IsOffer :
      (u : Url) (resp : Option Response) → Ensures IsOffer (probe_target web u resp)
  unfolding probe_target
  probe_target-IsOffer u none = tt
  probe_target-IsOffer u (some resp) =
      ground (arith, offer_response-IsOffer (web.post_request u), parse_offer_response-IsOffer resp)

  -- An offer that a probe returns has an address to pay to.
  pub probe_agent_offer-IsOffer : (url : Text) → Ensures IsOffer (probe_agent_offer web url)
  unfolding probe_agent_offer not_caught
  probe_agent_offer-IsOffer url = elim (Result-cases (validate_probe_url web.net url)) [
    | inl (u, e) ↦ ground (arith, probe_target-IsOffer u (web.get_request u))
    | inr (e, failed) ↦ ground arith
  ]
