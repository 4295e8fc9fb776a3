-- ===== src/Hires/Payment.antt =====
-- What a payment request does to a hire.
use bnb_agent_marketplace.Errors.{
  Result-cases, ok, forbidden, already_paid, Result, err, broadcast_failed,
}
use bnb_agent_marketplace.Base.{
  Option-cases, Text, ℕ, ◌/◌, ◌≡◌, inl, inr, true, false, some, arith, or_else, text_eq_iff,
  if◌then◌else◌, text_eq, ◌≢◌, ltb, Bool-cases, length,
}
use bnb_agent_marketplace.Exec.{Exec}
use bnb_agent_marketplace.Config.{Settings}
use bnb_agent_marketplace.Payment.Types.{TokenConfig, DecodedPayment, Externals}
use bnb_agent_marketplace.Payment.Envelope.{decode_envelope}
use bnb_agent_marketplace.Payment.Verify.{verify_payment}
use bnb_agent_marketplace.Hires.Types.{
  HiredAgent, paid, failed, is_pending, Store, find_hire, put_hire, truthy,
}
use bnb_agent_marketplace.Hires.Create.{expired, microseconds}
use bnb_agent_marketplace.Hires.Pay.{
  Headers, Approved, PayOut, approve, payable_hire, settlement_rail, finish, pay_hire,
}
use bnb_agent_marketplace.Hires.Rows.{id-find_hire, find_hire-put_self, find_hire-put_ne}

module _ (x : Externals) (settings : Settings) (hire_id : ℕ) (headers : Headers) (user : Text)
    (now : ℕ) (s : Store) where
  -- What the checks have established.
  pub record IsApproved (a : Approved) : Type 0 where
    pub found : find_hire hire_id s.hires ≡ some a.hire
    pub owner : a.hire.address ≡ user
    pub status : is_pending a.hire.status ≡ true
    pub in_time : expired a.hire now ≡ false
    pub chain_id : ℕ
    pub amount : ℕ
    pub pay_to : Text
    pub quoted_amount : a.hire.amount ≡ some amount
    pub quoted_payee : truthy a.hire.pay_to ≡ some pay_to
    pub verified :
        verify_payment x a.decoded chain_id a.token_cfg pay_to amount user (now / microseconds)
        ≡ ok tt

  pub approve-IsApproved :
      (a : Approved) → approve x settings hire_id headers user now s ≡ ok a → IsApproved a
  unfolding approve payable_hire
  approve-IsApproved a h = elim (Option-cases (find_hire hire_id s.hires)) [
    | inl e ↦ absurd (ground arith)
    | inr (hire, e1) ↦ elim (Option-cases hire.amount) [
      | inl e ↦ absurd (ground arith)
      | inr (amount, e2) ↦ elim (Option-cases (truthy hire.pay_to)) [
        | inl e ↦ absurd (ground arith)
        | inr (pay_to, e3) ↦ elim (Option-cases (truthy hire.network_agent)) [
          | inl e ↦ absurd (ground arith)
          | inr (network, e4) ↦ elim (Result-cases (settlement_rail x settings network)) [
            | inr (_, e) ↦ absurd (ground arith)
            | inl (rail, e5) ↦
                elim (Result-cases (
                  decode_envelope x
                    (or_else (truthy headers.x_payment) headers.payment_signature))) [
                      | inr (_, e) ↦ absurd (ground arith)
                      | inl (decoded, e6) ↦ record {
                        found = ground arith;
                        owner = ground (arith, text_eq_iff hire.address user);
                        status = ground arith;
                        in_time = ground arith;
                        chain_id = rail.0;
                        amount = amount;
                        pay_to = pay_to;
                        quoted_amount = ground arith;
                        quoted_payee = ground arith;
                        verified = ground arith;
                      }
                    ]
          ]
        ]
      ]
    ]
  ]

module _ (x : Externals) (settings : Settings) {W : Type 0}
    (broadcast : DecodedPayment → TokenConfig → Text → Text → ℕ → Exec W Text) where
  abbrev pub pay : ℕ → Headers → Text → ℕ → Store → W → Result PayOut × Store × W
  pay = pay_hire x settings broadcast

  -- A settled or closed hire answers with an error, and nothing happens: no broadcast, no write.
  pub not_pending_refused :
      (hire_id : ℕ) (headers : Headers) (user : Text) (now : ℕ) (s : Store) (w : W) {h : HiredAgent}
      → find_hire hire_id s.hires ≡ some h
      → is_pending h.status ≡ false
      → pay hire_id headers user now s w
        ≡ (err (if text_eq h.address user then already_paid else forbidden), s, w)
  unfolding pay_hire approve payable_hire
  not_pending_refused hire_id headers user now s w found closed = ground arith

  -- The answer of the broadcaster to an approved payment.
  abbrev pub sent : Approved → ℕ → W → Result Text × W
  sent a now w = broadcast a.decoded a.token_cfg settings.x402_facilitator_key a.rpc_url now w

  abbrev pub paid_row : HiredAgent → Text → ℕ → HiredAgent
  paid_row h tx now = record h { status = paid; tx_hash = some tx; updated_at = now }

  abbrev pub failed_row : HiredAgent → ℕ → HiredAgent
  failed_row h now = record h { status = failed; updated_at = now }

  module _ (hire_id : ℕ) (headers : Headers) (user : Text) (now : ℕ) (s : Store) (w : W) where
    pub pay-sent :
        (a : Approved) (tx : Text)
        → approve x settings hire_id headers user now s ≡ ok a
        → (sent a now w).0 ≡ ok tx
        → ltb 66 (length tx) ≡ false
        → (pay hire_id headers user now s w).1
          ≡ record s { hires = put_hire (paid_row a.hire tx now) s.hires }
    unfolding pay_hire finish
    pay-sent a tx e e' fits = ground arith

    pub pay-not_sent :
        (a : Approved)
        → approve x settings hire_id headers user now s ≡ ok a
        → (sent a now w).0 ≡ err broadcast_failed
        → (pay hire_id headers user now s w).1
          ≡ record s { hires = put_hire (failed_row a.hire now) s.hires }
    unfolding pay_hire finish
    pay-not_sent a e e' = ground arith

    -- A payment that answers 200: the hire was pending, the caller's and in time, its payment meets the
    -- quoted terms, the broadcaster gave the hash that is returned, and the hire is now paid with it.
    pub record IsPaid (out : PayOut) : Type 0 where
      pub approved : Approved
      pub checks : IsApproved x settings hire_id headers user now s approved
      pub tx_hash : Text
      pub settled : (sent approved now w).0 ≡ ok tx_hash
      pub answer : out.tx_hash ≡ some tx_hash
      pub stored :
          find_hire hire_id (pay hire_id headers user now s w).1.hires
          ≡ some (paid_row approved.hire tx_hash now)
      pub others :
          (k : ℕ)
          → k ≢ hire_id
          → find_hire k (pay hire_id headers user now s w).1.hires ≡ find_hire k s.hires

    pub pay_hire-IsPaid :
        {out : PayOut} → (pay hire_id headers user now s w).0 ≡ ok out → IsPaid out
    pay_hire-IsPaid {out} h = elim (Result-cases (approve x settings hire_id headers user now s)) [
      | inr (_, e) ↦ absurd (unfold pay_hire in ground arith)
      | inl (a, e) ↦ elim (Result-cases (sent a now w).0) [
        | inr (_, e') ↦ absurd (unfold pay_hire finish in ground arith)
        | inl (tx, e') ↦ elim (Bool-cases (ltb 66 (length tx))) [
          | inl over ↦ absurd (unfold pay_hire finish in ground arith)
          | inr fits ↦
              let c = approve-IsApproved x settings hire_id headers user now s a e in
              let i = id-find_hire hire_id s.hires c.found in
              let wrote = pay-sent a tx e e' fits in
              record {
                approved = a;
                checks = c;
                tx_hash = tx;
                settled = e';
                answer = unfold pay_hire finish in ground arith;
                stored = rw wrote (
                    rw (← i)
                      (find_hire-put_self (paid_row a.hire tx now) s.hires (rw (← i) at c.found)));
                others =
                    λ k n. rw wrote (find_hire-put_ne k (paid_row a.hire tx now) s.hires (rw i n));
              }
        ]
      ]
    ]
