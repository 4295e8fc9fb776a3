-- ===== src/Hires/Steps.antt =====
-- The requests to the hire routers as steps of the store, and what each of them can write.
use bnb_agent_marketplace.Errors.{Result-cases, Result, ok, err, broadcast_failed}
use bnb_agent_marketplace.Base.{
  Text, ℕ, ◌+◌, ◌≡◌, refl, ap, inl, inr, some, true, false, arith, [], ◌∷◌, ◌++◌, map, ltb, length,
  Bool-cases, is_some,
}
use bnb_agent_marketplace.Exec.{Exec}
use bnb_agent_marketplace.Config.{Settings}
use bnb_agent_marketplace.Payment.Types.{TokenConfig, DecodedPayment, Externals}
use bnb_agent_marketplace.Offer.{Web}
use bnb_agent_marketplace.Hires.Types.{HiredAgent, Store, find_hire, put_hire, is_paid, is_pending}
use bnb_agent_marketplace.Hires.Create.{create_hire}
use bnb_agent_marketplace.Hires.Pay.{Headers, Approved, approve, finish, pay_hire}
use bnb_agent_marketplace.Hires.Jobs.{Abi}
use bnb_agent_marketplace.Hires.Escrow.{
  HireEscrowCreate, HireEscrowSubmit, escrow_of, escrow_row, create_escrow_hire, submittable,
  submit_escrow_hire,
}
use bnb_agent_marketplace.Hires.Payment.{approve-IsApproved, paid_row, failed_row}
use bnb_agent_marketplace.Hires.Sweep.{swept}
use bnb_agent_marketplace.Hires.Creation.{created, create_hire-IsCreated, create_hire_outcome}
use bnb_agent_marketplace.Hires.Submit.{submit, submittable-IsSubmittable, submitted_row}

-- The requests of the routers, as steps of the store.
module _ (web : Web) (x : Externals) (abi : Abi) (settings : Settings) {W : Type 0}
    (broadcast : DecodedPayment → TokenConfig → Text → Text → ℕ → Exec W Text) where
  pub data Step : Store → Store → Type 0 where
    create_step :
        (agent_id base_url user : Text) (now : ℕ) (s : Store)
        → Step s (create_hire web agent_id base_url user now s).1
    pay_step :
        (hire_id : ℕ) (headers : Headers) (user : Text) (now : ℕ) (s : Store) (w : W)
        → Step s (pay_hire x settings broadcast hire_id headers user now s w).1
    escrow_step :
        (p : HireEscrowCreate) (user : Text) (now later : ℕ) (s : Store)
        → Step s (create_escrow_hire abi settings p user now later s).1
    submit_step :
        (hire_id : ℕ) (p : HireEscrowSubmit) (user : Text) (now : ℕ) (s : Store)
        → Step s (submit_escrow_hire abi settings hire_id p user now s).1

  -- The stores that a sequence of requests leads to.
  pub data Reachable (start : Store) : Store → Type 0 where
    here : Reachable start start
    after : {s t : Store} → Reachable start s → Step s t → Reachable start t

-- What a request does to the store: nothing, a new unsettled row after the sweep of a user or without
-- one, or a row that is no longer pending in place of one.
pub data Effect (s t : Store) : Type 0 where
  kept : t ≡ s → Effect s t
  added :
      (user : Text) (now : ℕ) (row : HiredAgent)
      → row.id ≡ s.next_id
      → is_paid row.status ≡ false
      → t.hires ≡ map (swept user now) s.hires ++ row ∷ []
      → t.next_id ≡ s.next_id + 1
      → Effect s t
  appended :
      (row : HiredAgent)
      → row.id ≡ s.next_id
      → is_paid row.status ≡ false
      → t ≡ record s { hires = s.hires ++ row ∷ []; next_id = s.next_id + 1 }
      → Effect s t
  replaced :
      (k : ℕ) (h row : HiredAgent)
      → find_hire k s.hires ≡ some h
      → row.id ≡ h.id
      → is_pending row.status ≡ false
      → (is_paid row.status ≡ true → is_some row.tx_hash ≡ true)
      → t ≡ record s { hires = put_hire row s.hires }
      → Effect s t

module _ (web : Web) (agent_id base_url user : Text) (now : ℕ) (s : Store) where
  created-Effect : Effect s (created web agent_id base_url user now s).1
  created-Effect = elim (create_hire_outcome web agent_id base_url user now s) [
    | inr (inl (_, _, _, e)) ↦ kept (ap (λ r. r.1) e)
    | inr (inr (_, _, e)) ↦ kept (ap (λ r. r.1) e)
    | inl (_, (row, c), _, _, e) ↦
        let made = create_hire-IsCreated web agent_id base_url user now s e in
        added user now row made.key (rw made.status refl) made.stored made.next
  ]

module _ (x : Externals) (settings : Settings) {W : Type 0}
    (broadcast : DecodedPayment → TokenConfig → Text → Text → ℕ → Exec W Text) where
  finish-Effect :
      (k : ℕ) (a : Approved) (now : ℕ) (s : Store) (r : Result Text)
      → find_hire k s.hires ≡ some a.hire
      → Effect s (finish x settings broadcast a now s r).1
  unfolding finish
  finish-Effect k a now s (ok tx) found = elim (Bool-cases (ltb 66 (length tx))) [
    | inl over ↦ kept (ground arith)
    | inr fits ↦
        replaced k a.hire (paid_row x settings broadcast a.hire tx now) found refl refl (λ _. refl)
          (ground arith)
  ]
  finish-Effect k a now s (err broadcast_failed) found =
      replaced k a.hire (failed_row x settings broadcast a.hire now) found refl refl
        (λ p. absurd (cc)) refl
  finish-Effect k a now s (err e) found = kept refl

  paid-Effect :
      (hire_id : ℕ) (headers : Headers) (user : Text) (now : ℕ) (s : Store) (w : W)
      → Effect s (pay_hire x settings broadcast hire_id headers user now s w).1
  paid-Effect hire_id headers user now s w =
      elim (Result-cases (approve x settings hire_id headers user now s)) [
        | inr (_, e) ↦ kept (unfold pay_hire in ground arith)
        | inl (a, e) ↦
            let r =
              (broadcast a.decoded a.token_cfg settings.x402_facilitator_key a.rpc_url now w).0 in
            let same : (pay_hire x settings broadcast hire_id headers user now s w).1
                ≡ (finish x settings broadcast a now s r).1 =
              unfold pay_hire in ground arith in
            let found = (approve-IsApproved x settings hire_id headers user now s a e).found in
            rw same (finish-Effect hire_id a now s r found)
      ]

module _ (abi : Abi) (settings : Settings) where
  escrow-Effect :
      (p : HireEscrowCreate) (user : Text) (now later : ℕ) (s : Store)
      → Effect s (create_escrow_hire abi settings p user now later s).1
  escrow-Effect p user now later s = elim (Result-cases (escrow_of abi settings p now later s)) [
    | inr (_, e) ↦ kept (unfold create_escrow_hire in ground arith)
    | inl ((provider, a, b, c), e) ↦
        appended (escrow_row settings s.next_id user provider p now) (unfold escrow_row in refl)
          (unfold escrow_row in refl) (unfold create_escrow_hire in ground arith)
  ]

  submitted-Effect :
      (hire_id : ℕ) (p : HireEscrowSubmit) (user : Text) (now : ℕ) (s : Store)
      → Effect s (submit abi settings hire_id p user now s).1
  submitted-Effect hire_id p user now s =
      elim (Result-cases (submittable abi settings hire_id p user s)) [
        | inr (_, e) ↦ kept (unfold submit_escrow_hire in ground arith)
        | inl (before, e) ↦
            let c = submittable-IsSubmittable abi settings hire_id p user s before e in
            replaced hire_id before (submitted_row abi settings before p now) c.found refl refl
              (λ _. refl) (unfold submit_escrow_hire in ground arith)
      ]

module _ (web : Web) (x : Externals) (abi : Abi) (settings : Settings) {W : Type 0}
    (broadcast : DecodedPayment → TokenConfig → Text → Text → ℕ → Exec W Text) where
  pub Step-Effect : {s t : Store} → Step web x abi settings broadcast s t → Effect s t
  Step-Effect (create_step agent_id base_url user now s) =
      created-Effect web agent_id base_url user now s
  Step-Effect (pay_step hire_id headers user now s w) =
      paid-Effect x settings broadcast hire_id headers user now s w
  Step-Effect (escrow_step p user now later s) = escrow-Effect abi settings p user now later s
  Step-Effect (submit_step hire_id p user now s) =
      submitted-Effect abi settings hire_id p user now s
