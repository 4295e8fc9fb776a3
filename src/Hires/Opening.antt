-- ===== src/Hires/Opening.antt =====
-- What the opening of an escrow hire leaves behind.
use bnb_agent_marketplace.Errors.{Result-cases, Result, ok}
use bnb_agent_marketplace.Base.{
  Option-cases, Text, ℕ, ◌<◌, ◌+◌, ◌/◌, ◌≡◌, inl, inr, true, some, arith, [], ◌∷◌, ◌++◌,
}
use bnb_agent_marketplace.Config.{Settings}
use bnb_agent_marketplace.Payment.Validators.{is_address}
use bnb_agent_marketplace.Hires.Types.{Store, find_agent}
use bnb_agent_marketplace.Hires.Create.{microseconds}
use bnb_agent_marketplace.Hires.Jobs.{Abi, check_address, build_create_job_calldata}
use bnb_agent_marketplace.Hires.Escrow.{
  HireEscrowCreate, HireEscrowCreateOut, provider_of, escrow_calls, escrow_of, escrow_row,
  create_escrow_hire,
}

module _ (abi : Abi) where
  check_address-ok : (s : Text) → check_address abi s ≡ ok tt → is_address s ≡ true
  unfolding check_address
  check_address-ok s h = ground arith

  build-ok :
      (provider evaluator : Text) (expired_at : ℕ) (task hook : Text) (now : ℕ) {t : Text}
      → build_create_job_calldata abi provider evaluator expired_at task hook now ≡ ok t
      → (is_address provider ≡ true) × (now + 300 < expired_at)
  build-ok provider evaluator expired_at task hook now h =
      elim (Result-cases (check_address abi provider)) [
        | inr (_, e) ↦ absurd (unfold build_create_job_calldata in ground arith)
        | inl (_, e) ↦ (
          check_address-ok provider (ground arith),
          unfold build_create_job_calldata in ground arith,
        )
      ]

  calls-ok :
      (settings : Settings) (p : HireEscrowCreate) (later : ℕ) (provider : Text) (expired_at : ℕ)
      {c : Text × Text × Text}
      → escrow_calls abi settings provider p expired_at later ≡ ok c
      → (is_address provider ≡ true) × (later + 300 < expired_at)
  calls-ok settings p later provider expired_at h =
      elim (Result-cases (
        build_create_job_calldata abi provider settings.erc8183_router_address expired_at p.task
          settings.erc8183_router_address later)) [
            | inr (_, e) ↦ absurd (unfold escrow_calls in ground arith)
            | inl (t, e) ↦
                build-ok provider settings.erc8183_router_address expired_at p.task
                  settings.erc8183_router_address later e
          ]

  module _ (settings : Settings) (p : HireEscrowCreate) (user : Text) (now later : ℕ)
      (s : Store) where
    abbrev opened : Result HireEscrowCreateOut × Store
    opened = create_escrow_hire abi settings p user now later s

    -- An opening that is answered with 201.
    pub record IsOpened (out : HireEscrowCreateOut) : Type 0 where
      pub wallet : Text
      pub provider : out.hire.provider_address ≡ some wallet
      pub valid_provider : is_address wallet ≡ true
      pub budget : out.hire.budget_wei ≡ some p.budget_wei
      pub owner : out.hire.address ≡ user
      pub key : out.hire.id ≡ s.next_id
      pub open_long_enough : later / microseconds + 300 < out.job_expiry_unix
      pub stored : opened.1.hires ≡ s.hires ++ out.hire ∷ []
      pub next : opened.1.next_id ≡ s.next_id + 1

    IsOpened-with :
        {out : HireEscrowCreateOut} (provider a b c : Text)
        → escrow_of abi settings p now later s ≡ ok (provider, a, b, c)
        → is_address provider ≡ true
        → later / microseconds + 300 < now / microseconds + settings.erc8183_job_expiry_seconds
        → opened.0 ≡ ok out
        → IsOpened out
    IsOpened-with {out} provider a b c e valid long h = record {
      wallet = provider;
      provider = unfold create_escrow_hire escrow_row in ground arith;
      valid_provider = valid;
      budget = unfold create_escrow_hire escrow_row in ground arith;
      owner = unfold create_escrow_hire escrow_row in ground arith;
      key = unfold create_escrow_hire escrow_row in ground arith;
      open_long_enough = unfold create_escrow_hire in ground arith;
      stored = unfold create_escrow_hire in ground arith;
      next = unfold create_escrow_hire in ground arith;
    }

    escrow_of-ok :
        (provider a b c : Text)
        → escrow_of abi settings p now later s ≡ ok (provider, a, b, c)
        → (is_address provider ≡ true)
          × (later / microseconds + 300 < now / microseconds + settings.erc8183_job_expiry_seconds)
    escrow_of-ok provider a b c e = elim (Option-cases (find_agent p.agent_id s.agents)) [
      | inl e1 ↦ absurd (unfold escrow_of in ground arith)
      | inr (agent, e1) ↦ elim (Result-cases (provider_of abi settings agent)) [
        | inr (_, e2) ↦ absurd (unfold escrow_of in ground arith)
        | inl (wallet, e2) ↦
            elim (Result-cases (
              escrow_calls abi settings wallet p
                (now / microseconds + settings.erc8183_job_expiry_seconds)
                (later / microseconds))) [
                  | inr (_, e3) ↦ absurd (unfold escrow_of in ground arith)
                  | inl (calls, e3) ↦
                      let checks =
                        calls-ok settings p (later / microseconds) wallet
                          (now / microseconds + settings.erc8183_job_expiry_seconds) e3 in
                      let same : wallet ≡ provider = unfold escrow_of in ground arith in
                      (rw (← same) checks.0, checks.1)
                ]
      ]
    ]

    -- An opening that is answered with 201 appends one hire of the caller under the next key, whose
    -- provider is an address and whose job stays open for more than five minutes after the calldata is built.
    pub create_escrow_hire-IsOpened : {out : HireEscrowCreateOut} → opened.0 ≡ ok out → IsOpened out
    create_escrow_hire-IsOpened {out} h =
        elim (Result-cases (escrow_of abi settings p now later s)) [
          | inr (_, e) ↦ absurd (unfold create_escrow_hire in ground arith)
          | inl ((provider, a, b, c), e) ↦
              let (valid, long) = escrow_of-ok provider a b c e in
              IsOpened-with provider a b c e valid long h
        ]
