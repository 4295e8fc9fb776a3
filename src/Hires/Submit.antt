-- ===== src/Hires/Submit.antt =====
-- What a report of an on-chain job does to an escrow hire.
use bnb_agent_marketplace.Errors.{Result-cases, ok, err, conflict, Result}
use bnb_agent_marketplace.Base.{
  Option-cases, Text, text_eq_iff, lower, ℕ, ◌≡◌, ◌≢◌, inl, inr, true, false, some, arith, ==_iff,
  leb, ◌^◌,
}
use bnb_agent_marketplace.Config.{Settings}
use bnb_agent_marketplace.Hires.Types.{HiredAgent, paid, Store, find_hire, put_hire}
use bnb_agent_marketplace.Hires.Jobs.{Abi}
use bnb_agent_marketplace.Hires.Escrow.{
  HireEscrowSubmit, erc8183_rail, submit_fields, load_owned_hire, is_open, other_job, submittable,
  submit_escrow_hire,
}
use bnb_agent_marketplace.Hires.Rows.{id-find_hire, find_hire-put_self, find_hire-put_ne}

module _ (abi : Abi) (settings : Settings) where
  abbrev pub submit : ℕ → HireEscrowSubmit → Text → ℕ → Store → Result HiredAgent × Store
  submit = submit_escrow_hire abi settings

  abbrev pub submitted_row : HiredAgent → HireEscrowSubmit → ℕ → HiredAgent
  submitted_row h p now = record h {
    job_id = some p.job_id;
    tx_hash = some p.tx_hash;
    status = paid;
    updated_at = now;
  }

  module _ (hire_id : ℕ) (p : HireEscrowSubmit) (user : Text) (s : Store) where
    -- A hire that takes the report `p` of `user`.
    pub record IsSubmittable (h : HiredAgent) : Type 0 where
      pub fields : submit_fields p ≡ ok tt
      pub enabled : settings.erc8183_enabled ≡ true
      pub found : find_hire hire_id s.hires ≡ some h
      pub owner : lower h.address ≡ lower user
      pub rail : h.rail ≡ erc8183_rail
      pub status : is_open h.status ≡ true
      pub same_job : other_job h.job_id p.job_id ≡ false
      pub fits : leb (2 ^ 63) p.job_id ≡ false

    pub submittable-IsSubmittable :
        (h : HiredAgent) → submittable abi settings hire_id p user s ≡ ok h → IsSubmittable h
    unfolding submittable load_owned_hire
    submittable-IsSubmittable h e = elim (Option-cases (find_hire hire_id s.hires)) [
      | inl none_found ↦ absurd (ground arith)
      | inr (hire, e1) ↦ record {
        fields = ground arith;
        enabled = ground arith;
        found = ground arith;
        owner = ground (arith, text_eq_iff (lower hire.address) (lower user));
        rail = ground (arith, text_eq_iff hire.rail erc8183_rail);
        status = ground arith;
        same_job = ground arith;
        fits = ground arith;
      }
    ]

    pub IsSubmittable-submittable :
        (h : HiredAgent) → IsSubmittable h → submittable abi settings hire_id p user s ≡ ok h
    unfolding submittable load_owned_hire
    IsSubmittable-submittable h c = ground (
      arith,
      c.fields,
      c.enabled,
      c.found,
      c.status,
      c.same_job,
      c.fits,
      text_eq_iff (lower h.address) (lower user),
      text_eq_iff h.rail erc8183_rail,
      c.owner,
      c.rail,
    )

    -- What an accepted report leaves behind.
    pub record IsSubmitted (now : ℕ) (out : HiredAgent) : Type 0 where
      pub before : HiredAgent
      pub checks : IsSubmittable before
      pub answer : out ≡ submitted_row before p now
      pub written : (submit hire_id p user now s).1 ≡ record s { hires = put_hire out s.hires }
      pub stored : find_hire hire_id (submit hire_id p user now s).1.hires ≡ some out
      pub others :
          (k : ℕ)
          → k ≢ hire_id
          → find_hire k (submit hire_id p user now s).1.hires ≡ find_hire k s.hires

    pub submit-IsSubmitted :
        (now : ℕ) {out : HiredAgent}
        → (submit hire_id p user now s).0 ≡ ok out
        → IsSubmitted now out
    submit-IsSubmitted now {out} h =
        elim (Result-cases (submittable abi settings hire_id p user s)) [
          | inr (_, e) ↦ absurd (unfold submit_escrow_hire in ground arith)
          | inl (before, e) ↦
              let c = submittable-IsSubmittable before e in
              let i = id-find_hire hire_id s.hires c.found in
              let out_is : out ≡ submitted_row before p now =
                unfold submit_escrow_hire in ground arith in
              let wrote : (submit hire_id p user now s).1
                  ≡ record s { hires = put_hire (submitted_row before p now) s.hires } =
                unfold submit_escrow_hire in ground arith in
              record {
                before = before;
                checks = c;
                answer = out_is;
                written = rw out_is wrote;
                stored =
                    rw (wrote, out_is)
                      (rw (← i) (
                        find_hire-put_self (submitted_row before p now) s.hires
                          (rw (← i) at c.found)));
                others = λ k n.
                    rw wrote (find_hire-put_ne k (submitted_row before p now) s.hires (rw i n));
              }
        ]

  module _ (hire_id : ℕ) (p : HireEscrowSubmit) (user : Text) (s : Store) (now : ℕ)
      {out : HiredAgent} (accepted : (submit hire_id p user now s).0 ≡ ok out) where
    abbrev after : Store
    after = (submit hire_id p user now s).1

    -- After an accepted report, the owner's well-formed report of another job for that hire answers
    -- `Conflict` and writes nothing.
    pub other_job_refused :
        (q : HireEscrowSubmit) (later : ℕ)
        → submit_fields q ≡ ok tt
        → q.job_id ≢ p.job_id
        → submit hire_id q user later after ≡ (err conflict, after)
    unfolding submit_escrow_hire submittable load_owned_hire
    other_job_refused q later fields differ =
        let w = submit-IsSubmitted hire_id p user s now accepted in
        let c = w.checks in
        let shape : out ≡ submitted_row w.before p now = w.answer in
        let row : find_hire hire_id after.hires ≡ some (submitted_row w.before p now) =
          rw (← shape) w.stored in
        ground (
          arith,
          fields,
          row,
          c.enabled,
          text_eq_iff (lower w.before.address) (lower user),
          text_eq_iff w.before.rail erc8183_rail,
          c.owner,
          c.rail,
          ==_iff p.job_id q.job_id,
        )

    -- After an accepted report, the owner's well-formed report of the same job is accepted again, and
    -- its transaction hash replaces the one before.
    pub same_job_overwrites :
        (q : HireEscrowSubmit) (later : ℕ)
        → submit_fields q ≡ ok tt
        → q.job_id ≡ p.job_id
        → (submit hire_id q user later after).0
          ≡ ok (record out { tx_hash = some q.tx_hash; updated_at = later })
    unfolding submit_escrow_hire submittable load_owned_hire
    same_job_overwrites q later fields same =
        let w = submit-IsSubmitted hire_id p user s now accepted in
        let c = w.checks in
        let shape : out ≡ submitted_row w.before p now = w.answer in
        let row : find_hire hire_id after.hires ≡ some (submitted_row w.before p now) =
          rw (← shape) w.stored in
        rw shape (
          ground (
            arith,
            fields,
            row,
            same,
            c.enabled,
            text_eq_iff (lower w.before.address) (lower user),
            text_eq_iff w.before.rail erc8183_rail,
            c.owner,
            c.rail,
            ==_iff p.job_id q.job_id,
          ))
