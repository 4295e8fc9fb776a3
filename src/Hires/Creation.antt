-- ===== src/Hires/Creation.antt =====
-- What the creation of a hire leaves behind.
use bnb_agent_marketplace.Payment.Validators.Decimal.{decimal}
use bnb_agent_marketplace.Errors.{
  Result-cases, Ensures, Ensures-ok, ok, Error, Result, err, library_error,
}
use bnb_agent_marketplace.Base.{
  Option-cases, or_else, Text, ℕ, ◌≡◌, inl, inr, true, some, arith, ◌+◌, ◌*◌, ◌⊎◌, [], ◌∷◌, ◌++◌,
  map, subst, Bool-cases, codes, ◌^◌, ◌≤◌, ◌<◌,
}
use bnb_agent_marketplace.Base.Int.{ℤ, pos, negsuc}
use bnb_agent_marketplace.Payment.Types.{TokenConfig, default_timeout_seconds}
use bnb_agent_marketplace.Payment.Validators.{is_address}
use bnb_agent_marketplace.Payment.Challenge.{Challenge, get_token_config, build_challenge}
use bnb_agent_marketplace.Payment.Challenge.Quoted.{
  Quotes, build_challenge-Quotes, build_challenge_total,
}
use bnb_agent_marketplace.Offer.{AgentOffer, Web, probe_agent_offer}
use bnb_agent_marketplace.Offer.Outcomes.{IsOffer, probe_agent_offer-IsOffer}
use bnb_agent_marketplace.Hires.Types.{HiredAgent, pending, AgentRow, Store, find_agent, truthy}
use bnb_agent_marketplace.Hires.Create.{
  quote_hire, supported_offer, create_hire, hire_row, config_of_offer, rail_config, microseconds,
  hire_url, rstrip_slash, amount_fits,
}
use bnb_agent_marketplace.Hires.Sweep.{swept, sweep_expired_exact}

config_of_offer-known :
    (chain : ℤ) → Ensures (λ r. get_token_config r.0 ≡ ok r.1) (config_of_offer chain)
unfolding config_of_offer rail_config
config_of_offer-known (negsuc _) = tt
config_of_offer-known (pos n) = elim (Result-cases (get_token_config n)) [
  | inl (cfg, e) ↦ ground arith
  | inr (_, e) ↦ ground arith
]

module _ (web : Web) where
  payee_IsAddress :
      (endpoint : Text) {offer : AgentOffer}
      → probe_agent_offer web endpoint ≡ ok (some offer)
      → is_address offer.pay_to ≡ true
  payee_IsAddress endpoint h =
      Ensures-ok IsOffer (probe_agent_offer web endpoint) (probe_agent_offer-IsOffer web endpoint) h

  supported_offer-IsOffer :
      (agent : AgentRow) → Ensures (λ o. is_address o.pay_to ≡ true) (supported_offer web agent)
  unfolding supported_offer
  supported_offer-IsOffer agent =
      elim (Option-cases (or_else (truthy agent.a2a_endpoint) (truthy agent.agent_url))) [
        | inl e ↦ ground arith
        | inr (endpoint, e) ↦ elim (Result-cases (probe_agent_offer web endpoint)) [
          | inr (_, e') ↦ ground arith
          | inl (found, e') ↦
              ground (arith, Ensures-ok IsOffer _ (probe_agent_offer-IsOffer web endpoint) e')
        ]
      ]

  -- What the checks of a creation establish: the payee is an address, and the rail's token is known.
  abbrev pub IsQuote : AgentOffer × ℕ × TokenConfig → Type 0
  IsQuote (offer, chain_id, cfg) =
      (is_address offer.pay_to ≡ true) × (get_token_config chain_id ≡ ok cfg)

  quote_hire-IsQuote : (agent_id : Text) (s : Store) → Ensures IsQuote (quote_hire web agent_id s)
  unfolding quote_hire
  quote_hire-IsQuote agent_id s = elim (Option-cases (find_agent agent_id s.agents)) [
    | inl e ↦ ground arith
    | inr (agent, e) ↦ elim (Result-cases (supported_offer web agent)) [
      | inr (_, e') ↦ ground arith
      | inl (offer, e') ↦ grind (
        arith,
        Ensures-ok (λ o. is_address o.pay_to ≡ true) _ (supported_offer-IsOffer agent) e',
        config_of_offer-known,
      )
    ]
  ]

  module _ (agent_id base_url user : Text) (now : ℕ) (s : Store) where
    abbrev pub created : Result (HiredAgent × Challenge) × Store
    created = create_hire web agent_id base_url user now s

    -- A creation that answers 201.
    pub record IsCreated (row : HiredAgent) (c : Challenge) : Type 0 where
      pub chain_id : ℕ
      pub cfg : TokenConfig
      pub amount : ℕ
      pub payee : Text
      pub url : Text
      pub url_of_key : url ≡ rstrip_slash base_url ++ (codes "/api/hires/" ++ decimal row.id)
      pub known : get_token_config chain_id ≡ ok cfg
      pub quoted : Quotes c payee url amount default_timeout_seconds chain_id cfg
      pub status : row.status ≡ pending
      pub owner : row.address ≡ user
      pub key : row.id ≡ s.next_id
      pub row_amount : row.amount ≡ some amount
      pub row_payee : row.pay_to ≡ some payee
      pub row_token : row.token ≡ some cfg.address
      pub expiry : row.challenge_expiry ≡ some (now + default_timeout_seconds * microseconds)
      pub stored : created.1.hires ≡ map (swept user now) s.hires ++ row ∷ []
      pub next : created.1.next_id ≡ s.next_id + 1
      pub agents : created.1.agents ≡ s.agents

    -- The challenge of an offer, with the URL of the row to come.
    abbrev challenge_for : AgentOffer → ℕ → Result Challenge
    challenge_for offer n =
        build_challenge offer.pay_to (hire_url base_url s.next_id) (pos offer.amount_wei)
          default_timeout_seconds n

    created_challenge :
        (offer : AgentOffer) (n : ℕ) (cfg : TokenConfig) (built : Challenge)
        → quote_hire web agent_id s ≡ ok (offer, n, cfg)
        → amount_fits offer.amount_wei ≡ true
        → challenge_for offer n ≡ ok built
        → created.0 ≡ ok (hire_row s.next_id user agent_id offer cfg now, built)
    unfolding create_hire
    created_challenge offer n cfg built e fits e' = ground arith

    IsCreated-with :
        (offer : AgentOffer) (n : ℕ) (cfg : TokenConfig) (built : Challenge)
        → quote_hire web agent_id s ≡ ok (offer, n, cfg)
        → challenge_for offer n ≡ ok built
        → {row : HiredAgent} {c : Challenge} → created.0 ≡ ok (row, c)
        → IsCreated row c
    IsCreated-with offer n cfg built e e' {row} {c} h =
        let same : built ≡ c = unfold create_hire in ground arith in
        let quote = Ensures-ok IsQuote _ (quote_hire-IsQuote agent_id s) e in
        let q =
          build_challenge-Quotes offer.pay_to (hire_url base_url s.next_id) offer.amount_wei
            default_timeout_seconds n quote.1 e' in
        let sw = (sweep_expired_exact user now s.hires).0 in
        record {
          chain_id = n;
          cfg = cfg;
          amount = offer.amount_wei;
          payee = offer.pay_to;
          url = hire_url base_url s.next_id;
          url_of_key = unfold create_hire hire_row hire_url in ground arith;
          known = quote.1;
          quoted =
              subst
                (λ k.
                  Quotes k offer.pay_to (hire_url base_url s.next_id) offer.amount_wei
                    default_timeout_seconds n cfg)
                same q;
          status = unfold create_hire hire_row in ground arith;
          owner = unfold create_hire hire_row in ground arith;
          key = unfold create_hire hire_row in ground arith;
          row_amount = unfold create_hire hire_row in ground arith;
          row_payee = unfold create_hire hire_row in ground arith;
          row_token = unfold create_hire hire_row in ground arith;
          expiry = unfold create_hire hire_row in ground arith;
          stored = unfold create_hire in ground (arith, sw);
          next = unfold create_hire in ground arith;
          agents = unfold create_hire in ground arith;
        }

    -- A creation that answers 201 has swept the caller's expired hires, used one key and appended one
    -- pending hire of the caller under that key, which expires 300 seconds later and whose amount, payee
    -- and token are those of the returned challenge; the URL of the challenge is the base URL without its
    -- last slashes, `/api/hires/` and the key.
    pub create_hire-IsCreated :
        {row : HiredAgent} {c : Challenge} → created.0 ≡ ok (row, c) → IsCreated row c
    create_hire-IsCreated {row} {c} h = elim (Result-cases (quote_hire web agent_id s)) [
      | inr (_, e) ↦ absurd (unfold create_hire in ground arith)
      | inl ((offer, n, cfg), e) ↦ elim (Result-cases (challenge_for offer n)) [
        | inr (_, e') ↦ absurd (unfold create_hire in ground arith)
        | inl (built, e') ↦ IsCreated-with offer n cfg built e e' h
      ]
    ]

    -- A creation succeeds wherever its checks pass and the quoted amount is below 10^20. Where they pass
    -- with a larger amount it raises an exception of the database, and where they fail it answers with
    -- their error; in both cases it leaves the store as it was.
    pub create_hire_outcome :
        ((q : AgentOffer × ℕ × TokenConfig) × (out : HiredAgent × Challenge) × (quote_hire web
              agent_id s
            ≡ ok q)
          × (q.0.amount_wei < 10 ^ 20)
          × (created.0 ≡ ok out))
        ⊎ ((q : AgentOffer × ℕ × TokenConfig) × (quote_hire web agent_id s ≡ ok q)
            × (10 ^ 20 ≤ q.0.amount_wei)
            × (created ≡ (err library_error, s)))
        ⊎ ((e : Error) × (quote_hire web agent_id s ≡ err e) × (created ≡ (err e, s)))
    create_hire_outcome = elim (Result-cases (quote_hire web agent_id s)) [
      | inr (failure, e) ↦ inr (inr (failure, e, unfold create_hire in ground arith))
      | inl ((offer, n, cfg), e) ↦ elim (Bool-cases (amount_fits offer.amount_wei)) [
        | inr large ↦ inr (
            inl (
              (offer, n, cfg),
              e,
              unfold amount_fits in ground arith,
              unfold create_hire in ground arith,
            ))
        | inl fits ↦
            let quote : IsQuote (offer, n, cfg) =
              Ensures-ok IsQuote _ (quote_hire-IsQuote agent_id s) e in
            let (c, built) =
              build_challenge_total offer.pay_to (hire_url base_url s.next_id) offer.amount_wei
                default_timeout_seconds n quote.1 quote.0 (omega arith) (omega arith) in
            inl (
              (offer, n, cfg),
              (hire_row s.next_id user agent_id offer cfg now, c),
              e,
              unfold amount_fits in ground arith,
              created_challenge offer n cfg c e fits built,
            )
      ]
    ]
