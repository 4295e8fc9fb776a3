-- ===== src/Hires/Create.antt =====
-- `sweep_expired` and `create_hire` of app/routers/hires.py. A request that raises before its commit
-- leaves the store as it was.
use bnb_agent_marketplace.Base.{
  ltb, ◌^◌, ◌==◌, if◌then◌else◌, or_else, Text, codes, text_eq, is_empty, parse_int, ℕ, ◌+◌, ◌*◌,
  Bool, false, not, ◌&&◌, Option, none, some, List, [], ◌∷◌, ◌++◌,
}
use mathlib.Core.List.{reverse}
use bnb_agent_marketplace.Errors.{
  ◌>>=◌, ◌>>◌, not_found, no_pay_to, unknown_rail, agent_offer_unavailable, type_error, value_error,
  library_error, Error, Result, ok, err, raise_if, or_raise,
}
use bnb_agent_marketplace.Base.Int.{ℤ, pos, negsuc}
use bnb_agent_marketplace.Json.{as_str}
use bnb_agent_marketplace.Payment.Types.{default_timeout_seconds, eip3009_rail, TokenConfig}
use bnb_agent_marketplace.Payment.Challenge.{Challenge, get_token_config, build_challenge}
use bnb_agent_marketplace.Payment.Validators.Decimal.{decimal}
use bnb_agent_marketplace.Offer.{AgentOffer, Web, probe_agent_offer, is_supported_offer}
use bnb_agent_marketplace.Hires.Types.{
  HiredAgent, pending, cancelled, is_pending, AgentRow, Store, find_agent, truthy,
}

abbrev pub microseconds : ℕ
microseconds = 1000000

-- `challenge_expiry is not None and challenge_expiry < now`
unfoldable pub expired : HiredAgent → ℕ → Bool
expired h now = elim h.challenge_expiry [ none ↦ false | some t ↦ ltb t now ]

-- The rows of the sweep's `UPDATE`.
unfoldable pub to_sweep : Text → ℕ → HiredAgent → Bool
unfolding expired text_eq
to_sweep address now h = text_eq h.address address && is_pending h.status && expired h now

-- The new rows, and how many were cancelled.
unfoldable pub sweep_expired : Text → ℕ → List HiredAgent → List HiredAgent × ℕ
unfolding to_sweep
sweep_expired address now [] = ([], 0)
sweep_expired address now (h ∷ rest) =
    let (rest', n) = sweep_expired address now rest in
    if to_sweep address now h
    then (record h { status = cancelled; updated_at = now } ∷ rest', n + 1)
    else (h ∷ rest', n)

-- `network.split(":")[1]`; `none` is the `IndexError`.
unfoldable pub until_colon : Text → Text
until_colon [] = []
until_colon (c ∷ s) = if c == b':' then [] else c ∷ until_colon s

unfoldable pub second_part : Text → Option Text
unfolding until_colon
second_part [] = none
second_part (c ∷ s) = if c == b':' then some (until_colon s) else second_part s

-- `int(text)` as a chain id: a negative one is on no rail.
unfoldable pub chain_of : (ℕ → Option ℕ) → Text → Result ℤ
unfolding second_part parse_int
chain_of digit network = elim (second_part network) [
  | none ↦ err value_error
  | some s ↦ or_raise (parse_int digit 10 s) value_error
]

unfoldable pub rail_config : ℤ → Result (ℕ × TokenConfig)
unfolding get_token_config
rail_config (negsuc _) = err unknown_rail
rail_config (pos n) = do token_cfg ← get_token_config n; ok (n, token_cfg)

-- `except UnknownRail`
unfoldable pub unknown_to_unavailable : Error → Error
unknown_to_unavailable unknown_rail = agent_offer_unavailable
unknown_to_unavailable e = e

unfoldable pub config_of_offer : ℤ → Result (ℕ × TokenConfig)
config_of_offer chain_id = elim (rail_config chain_id) [
  | ok r ↦ ok r
  | err e ↦ err (unknown_to_unavailable e)
]

-- `str(request.base_url).rstrip("/")`
unfoldable pub rstrip_slash : Text → Text
rstrip_slash s = reverse (strip_slashes (reverse s))
  where
    strip_slashes : Text → Text
    strip_slashes [] = []
    strip_slashes (c ∷ t) = if c == b'/' then strip_slashes t else c ∷ t

-- `f"{base}/api/hires/{row.id}"`
unfoldable pub hire_url : Text → ℕ → Text
unfolding rstrip_slash
hire_url base_url id = rstrip_slash base_url ++ (codes "/api/hires/" ++ decimal id)

unfoldable pub hire_row : ℕ → Text → Text → AgentOffer → TokenConfig → ℕ → HiredAgent
unfolding as_str
hire_row id address agent_id offer token_cfg now = record {
  id = id;
  address = address;
  agent_id = agent_id;
  status = pending;
  tx_hash = none;
  amount = some offer.amount_wei;
  token = some token_cfg.address;
  rail = eip3009_rail;
  pay_to = some offer.pay_to;
  challenge_expiry = some (now + default_timeout_seconds * microseconds);
  amount_agent = some offer.amount_wei;
  pay_to_agent = some offer.pay_to;
  asset_agent = as_str (some offer.asset);
  network_agent = as_str (some offer.network);
  job_id = none;
  chain_id = none;
  provider_address = none;
  budget_wei = none;
  updated_at = now;
}

-- `amount` is a `Numeric(38, 18)` of PostgreSQL, which holds less than 10^20.
unfoldable pub amount_fits : ℕ → Bool
amount_fits n = ltb n (10 ^ 20)

module _ (web : Web) where
  -- The offer that the hire is charged, probed anew.
  unfoldable pub supported_offer : AgentRow → Result AgentOffer
  supported_offer agent = elim (or_else (truthy agent.a2a_endpoint) (truthy agent.agent_url)) [
    | none ↦ err agent_offer_unavailable
    | some endpoint ↦ do
      found ← probe_agent_offer web endpoint
      offer ← or_raise found agent_offer_unavailable
      supported ← is_supported_offer web.digit offer
      raise_if (not supported) agent_offer_unavailable
      ok offer
  ]

  -- What `create_hire` has worked out before it writes.
  unfoldable pub quote_hire : Text → Store → Result (AgentOffer × ℕ × TokenConfig)
  quote_hire agent_id s = do
    agent ← or_raise (find_agent agent_id s.agents) not_found
    offer ← supported_offer agent
    network ← or_raise (as_str (some offer.network)) type_error
    chain ← chain_of web.digit network
    found ← config_of_offer chain
    raise_if (is_empty offer.pay_to) no_pay_to
    ok (offer, found.0, found.1)

  unfoldable pub create_hire :
      Text → Text → Text → ℕ → Store → Result (HiredAgent × Challenge) × Store
  unfolding amount_fits
  create_hire agent_id base_url user now s = elim (quote_hire agent_id s) [
    | err e ↦ (err e, s)
    | ok (offer, chain_id, token_cfg) ↦
        let row = hire_row s.next_id user agent_id offer token_cfg now in
        let swept = (sweep_expired user now s.hires).0 in
        let s' = record s { hires = swept ++ row ∷ []; next_id = s.next_id + 1 } in
        -- The flush of a row whose amount does not fit raises.
        if not (amount_fits offer.amount_wei)
        then (err library_error, s)
        else (elim (build_challenge offer.pay_to (hire_url base_url s.next_id)
            (pos offer.amount_wei) default_timeout_seconds chain_id) [
              | err e ↦ (err e, s)
              | ok challenge ↦ (ok (row, challenge), s')
            ])
  ]
