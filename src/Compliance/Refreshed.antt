-- ===== src/Compliance/Refreshed.antt =====
-- What a refresh of the flags leaves.
use bnb_agent_marketplace.Base.{
  arith, ap, sym, ◌∙◌, text_eq_iff, text_eq_refl, ◌==◌, Bool-cases, length, All, Text, text_eq, ℕ,
  ◌+◌, ◌≡◌, refl, subst, ◌≢◌, inl, inr, Bool, false, Option, some, List, [], ◌∷◌, map,
}
use bnb_agent_marketplace.Compliance.{
  FlaggedAddress, flagged_data_stale, flag_of, penalty_of, add_bucket, distribute, upsert_flag,
  upsert_all, set_penalty, set_penalties, refresh_agent_compliance_flags, OwnedAgent,
  AgentComplianceFlag, Dialect, ComplianceStore,
}
use bnb_agent_marketplace.Compliance.Keyed.{flag_at, put_at, upsert_flag-at}

-- The table of flags as a function, after writing rows one by one.
abbrev pub put_all :
    List AgentComplianceFlag
    → (Text → Option AgentComplianceFlag)
    → Text
    → Option AgentComplianceFlag
put_all [] table = table
put_all (row ∷ rows) table = put_all rows (put_at row table)

upsert_all-at :
    (dialect : Dialect) (rows flags : List AgentComplianceFlag)
    → (λ aid. flag_at aid (upsert_all dialect rows flags)) ≡ put_all rows (λ aid. flag_at aid flags)
unfolding upsert_all
upsert_all-at dialect [] flags = refl
upsert_all-at dialect (row ∷ rows) flags =
    upsert_all-at dialect rows (upsert_flag dialect row flags)
    ∙ ap (put_all rows) (λ i aid. upsert_flag-at dialect row flags aid i)

put_all-absent :
    (rows : List AgentComplianceFlag) (table : Text → Option AgentComplianceFlag) (aid : Text)
    → All (λ row. row.agent_id ≢ aid) rows
    → put_all rows table aid ≡ table aid
put_all-absent [] table aid a = refl
put_all-absent (row ∷ rows) table aid (ne, a) =
    let other : text_eq row.agent_id aid ≡ false = elim (Bool-cases (text_eq row.agent_id aid)) [
      | inl e ↦ absurd (ne ((text_eq_iff row.agent_id aid).0 e))
      | inr e ↦ e
    ] in
    put_all-absent rows (put_at row table) aid a ∙ rw other refl

-- No two agents have the same key.
abbrev pub IsUnique : List OwnedAgent → Type 0
IsUnique [] = Unit
IsUnique (a ∷ agents) = All (λ b. b.agent_id ≢ a.agent_id) agents × IsUnique agents

module _ (flagged : List FlaggedAddress) (stale : Bool) (now : ℕ) where
  map-ids :
      (aid : Text) (agents : List OwnedAgent)
      → All (λ b. b.agent_id ≢ aid) agents
      → All (λ row. row.agent_id ≢ aid) (map (flag_of flagged stale now) agents)
  unfolding flag_of
  map-ids aid [] a = tt
  map-ids aid (b ∷ agents) (ne, a) = (ne, map-ids aid agents a)

  put_all-own :
      (agents : List OwnedAgent) (table : Text → Option AgentComplianceFlag)
      → IsUnique agents
      → All
          (λ a.
            put_all (map (flag_of flagged stale now) agents) table a.agent_id
            ≡ some (flag_of flagged stale now a))
          agents
  put_all-own [] table u = tt
  put_all-own (a ∷ agents) table (ne, u) = (
    put_all-absent (map (flag_of flagged stale now) agents)
          (put_at (flag_of flagged stale now a) table) a.agent_id (map-ids a.agent_id agents ne)
        ∙ unfold flag_of in rw (text_eq_refl a.agent_id) refl,
    put_all-own agents (put_at (flag_of flagged stale now a) table) u,
  )

abbrev pub sum_buckets : List (ℕ × ℕ) → ℕ
sum_buckets [] = 0
sum_buckets ((b, n) ∷ counts) = n + sum_buckets counts

-- The agent with its penalty.
abbrev pub penalised : List FlaggedAddress → OwnedAgent → OwnedAgent
penalised flagged a = record a { compliance_penalty = penalty_of flagged a }

module _ (flagged : List FlaggedAddress) where
  set_penalty-absent :
      (aid : Text) (p : ℕ) (agents : List OwnedAgent)
      → All (λ b. b.agent_id ≢ aid) agents
      → set_penalty aid p agents ≡ agents
  unfolding set_penalty
  set_penalty-absent aid p [] a = refl
  set_penalty-absent aid p (b ∷ agents) (ne, a) = elim (Bool-cases (text_eq b.agent_id aid)) [
    | inl e ↦ absurd (ne ((text_eq_iff b.agent_id aid).0 e))
    | inr e ↦ rw (e, set_penalty-absent aid p agents a) refl
  ]

  set_penalties-cons :
      (rest : List OwnedAgent) (a : OwnedAgent) (agents : List OwnedAgent)
      → All (λ b. b.agent_id ≢ a.agent_id) rest
      → set_penalties flagged rest (a ∷ agents) ≡ a ∷ set_penalties flagged rest agents
  unfolding set_penalties set_penalty
  set_penalties-cons [] a agents h = refl
  set_penalties-cons (b ∷ rest) a agents (ne, h) =
      elim (Bool-cases (text_eq a.agent_id b.agent_id)) [
        | inl e ↦ absurd (ne (sym ((text_eq_iff a.agent_id b.agent_id).0 e)))
        | inr e ↦
            rw e
              (set_penalties-cons rest a (set_penalty b.agent_id (penalty_of flagged b) agents) h)
      ]

  set_penalties-own :
      (agents : List OwnedAgent)
      → IsUnique agents
      → set_penalties flagged agents agents ≡ map (penalised flagged) agents
  unfolding set_penalties set_penalty
  set_penalties-own [] u = refl
  set_penalties-own (a ∷ agents) (ne, u) =
      rw
        (
          text_eq_refl a.agent_id,
          set_penalty-absent a.agent_id (penalty_of flagged a) agents ne,
          set_penalties-cons agents (penalised flagged a) agents ne,
          set_penalties-own agents u,
        )
        refl

  add_bucket-sum :
      (bucket : ℕ) (counts : List (ℕ × ℕ))
      → sum_buckets (add_bucket bucket counts) ≡ sum_buckets counts + 1
  unfolding add_bucket
  add_bucket-sum bucket [] = refl
  add_bucket-sum bucket ((b, n) ∷ counts) = elim (Bool-cases (b == bucket)) [
    | inl e ↦ rw e omega arith
    | inr e ↦ rw e omega (arith, add_bucket-sum bucket counts)
  ]

  distribute-sum :
      (agents : List OwnedAgent) (counts : List (ℕ × ℕ))
      → sum_buckets (distribute flagged agents counts) ≡ sum_buckets counts + length agents
  unfolding distribute
  distribute-sum [] counts = omega arith
  distribute-sum (a ∷ agents) counts = omega (
    arith,
    distribute-sum agents (add_bucket (penalty_of flagged a) counts),
    add_bucket-sum (penalty_of flagged a) counts,
  )

-- Where no key of an agent stands twice, a refresh writes on each dialect the flags of all agents into
-- the table, seen as a function of the key, one after the other, so that each agent has its own
-- flags; each agent has the penalty of its two wallets and is otherwise as it was; and the
-- distribution adds up to the number of agents.
pub refresh-writes :
    (dialect : Dialect) (now : ℕ) (s : ComplianceStore)
    → IsUnique s.agents
    → ((λ aid. flag_at aid (refresh_agent_compliance_flags dialect now s).1.flags)
        ≡ put_all
            (map (flag_of s.flagged (flagged_data_stale s.flagged now) now) s.agents)
            (λ aid. flag_at aid s.flags))
      × All
          (λ a.
            flag_at a.agent_id (refresh_agent_compliance_flags dialect now s).1.flags
            ≡ some (flag_of s.flagged (flagged_data_stale s.flagged now) now a))
          s.agents
      × ((refresh_agent_compliance_flags dialect now s).1.agents
          ≡ map (penalised s.flagged) s.agents)
      × (sum_buckets (refresh_agent_compliance_flags dialect now s).0.penalty_distribution
          ≡ length s.agents)
unfolding refresh_agent_compliance_flags
refresh-writes dialect now s u =
    let stale = flagged_data_stale s.flagged now in
    let rows = map (flag_of s.flagged stale now) s.agents in
    let whole = upsert_all-at dialect rows s.flags in
    (
      whole,
      subst
          (λ (table : Text → Option AgentComplianceFlag).
            All (λ a. table a.agent_id ≡ some (flag_of s.flagged stale now a)) s.agents)
          (sym whole) (put_all-own s.flagged stale now s.agents (λ aid. flag_at aid s.flags) u),
      set_penalties-own s.flagged s.agents u,
      omega (arith, distribute-sum s.flagged s.agents ((0, 0) ∷ (30, 0) ∷ (50, 0) ∷ [])),
    )
