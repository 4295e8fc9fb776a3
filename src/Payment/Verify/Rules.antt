-- ===== src/Payment/Verify/Rules.antt =====
-- What a payment that `verify_payment` accepts is.
use bnb_agent_marketplace.Errors.{Result, ok, Result-cases}
use bnb_agent_marketplace.Base.{Text, lower, ℕ, ◌<◌, ◌≡◌, ◌⊎◌, text_eq_iff, arith, inl, inr}
use bnb_agent_marketplace.Payment.Types.{TokenConfig, DecodedPayment, Externals, zero_address}
use bnb_agent_marketplace.Payment.Verify.{verify_payment, recover_signer}

-- The terms of a hire.
pub record Terms : Type 0 where
  pub chain_id : ℕ
  pub token_cfg : TokenConfig
  pub pay_to : Text
  pub amount_wei : ℕ
  pub payer : Text
  pub now : ℕ

-- The token is the rail's, up to letter case, or was left out.
abbrev pub TokenMatches : Text → Text → Type 0
TokenMatches token address = (token ≡ zero_address) ⊎ (lower token ≡ lower address)

-- A transfer of the quoted amount on the quoted chain to the payee, valid at this second, and
-- signed by the payer.
pub record Meets (x : Externals) (d : DecodedPayment) (t : Terms) : Type 0 where
  pub chain : d.chain_id ≡ t.chain_id
  pub token : TokenMatches d.token t.token_cfg.address
  pub amount : d.amount ≡ t.amount_wei
  pub payee : lower d.authorization.to ≡ lower t.pay_to
  pub started : d.authorization.valid_after < t.now
  pub running : t.now < d.authorization.valid_before
  pub signature :
      (s : Text) × (recover_signer x d t.chain_id t.token_cfg ≡ ok s) × (lower s ≡ lower t.payer)

abbrev pub verify : Externals → DecodedPayment → Terms → Result (Unit {0})
verify x d t = verify_payment x d t.chain_id t.token_cfg t.pay_to t.amount_wei t.payer t.now

module _ (x : Externals) (d : DecodedPayment) (t : Terms) where
  recovered_signer :
      (s : Text)
      → recover_signer x d t.chain_id t.token_cfg ≡ ok s
      → verify x d t ≡ ok tt
      → Meets x d t
  unfolding verify_payment
  recovered_signer s e h = record {
    chain = ground arith;
    token = ground (
      arith,
      text_eq_iff d.token zero_address,
      text_eq_iff (lower d.token) (lower t.token_cfg.address),
    );
    amount = ground arith;
    payee = ground (arith, text_eq_iff (lower d.authorization.to) (lower t.pay_to));
    started = ground arith;
    running = ground arith;
    signature = (s, e, ground (arith, text_eq_iff (lower s) (lower t.payer)));
  }

  -- A payment that passes verification is on the quoted chain, in the rail's token or with the zero
  -- address for it, of the quoted amount, to the payee, valid at this second, and signed by the payer.
  pub verify-Meets : verify x d t ≡ ok tt → Meets x d t
  verify-Meets h = elim (Result-cases (recover_signer x d t.chain_id t.token_cfg)) [
    | inl (s, e) ↦ recovered_signer s e h
    | inr (e, failed) ↦ absurd (unfold verify_payment in ground arith)
  ]

  -- A payment that meets all the terms passes verification.
  pub Meets-verify : Meets x d t → verify x d t ≡ ok tt
  unfolding verify_payment
  Meets-verify m =
      let (s, recovered, same) = m.signature in
      ground (
        arith,
        recovered,
        text_eq_iff d.token zero_address,
        text_eq_iff (lower d.token) (lower t.token_cfg.address),
        text_eq_iff (lower d.authorization.to) (lower t.pay_to),
        text_eq_iff (lower s) (lower t.payer),
      )
