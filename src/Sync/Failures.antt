-- ===== src/Sync/Failures.antt =====
-- The counters of the sync and the list of failures that it records.
use bnb_agent_marketplace.Sync.Newest.{newest-append, newest-short, length-newest}
use bnb_agent_marketplace.Sync.Owned.{Fetched-cases}
use bnb_agent_marketplace.Sync.{found, gap, upstream_error}
use bnb_agent_marketplace.Sync.Rows.{Attributes}
use mathlib.Core.List.{append_assoc, append-nil}
use bnb_agent_marketplace.Json.{Json}
use bnb_agent_marketplace.Base.{
  arith, length, ℕ, ◌+◌, ◌≤◌, ◌≡◌, refl, sym, ap, ◌∙◌, List, [], ◌∷◌, ◌++◌, codes, if◌then◌else◌,
  Bool, true, false, Option, none, some, Bool-cases, inl, inr,
}
use bnb_agent_marketplace.Sync.{
  newest, failed_token_ids_cap, record_token_failure, is_other_chain, failure, store_agent,
  enrich_one, enrich_and_upsert, Fetched, Enriched, flushed, discover_bsc_token_ids,
  ensure_sync_state, run_sync, Listed, SyncStore,
}

-- What becomes of a token, by the upstream's answer alone.
pub data Outcome : Type 0 where
  stored missed foreign : Outcome

abbrev pub outcome_of : Fetched → Outcome
outcome_of gap = missed
outcome_of upstream_error = missed
outcome_of (found agent) = if is_other_chain (agent (codes "chain_id")) then foreign else stored

-- The outcomes of the tokens, which are asked for one after the other.
abbrev pub outcomes : {W : Type 0} → (ℕ → W → Fetched × W) → List ℕ → W → List (ℕ × Outcome)
outcomes get_agent [] w = []
outcomes get_agent (t ∷ token_ids) w =
    (t, outcome_of (get_agent t w).0) ∷ outcomes get_agent token_ids (get_agent t w).1

abbrev pub count_stored : List (ℕ × Outcome) → ℕ
count_stored [] = 0
count_stored ((_, stored) ∷ rest) = 1 + count_stored rest
count_stored ((_, missed) ∷ rest) = count_stored rest
count_stored ((_, foreign) ∷ rest) = count_stored rest

abbrev pub count_missed : List (ℕ × Outcome) → ℕ
count_missed [] = 0
count_missed ((_, missed) ∷ rest) = 1 + count_missed rest
count_missed ((_, stored) ∷ rest) = count_missed rest
count_missed ((_, foreign) ∷ rest) = count_missed rest

-- Another failure follows before the next stored agent.
abbrev pub overtaken : List (ℕ × Outcome) → Bool
overtaken [] = false
overtaken ((_, missed) ∷ rest) = true
overtaken ((_, stored) ∷ rest) = false
overtaken ((_, foreign) ∷ rest) = overtaken rest

-- The failures that are not overtaken.
abbrev pub recorded : List (ℕ × Outcome) → List ℕ
recorded [] = []
recorded ((t, missed) ∷ rest) =
    let later = recorded rest in if overtaken rest then later else t ∷ later
recorded ((_, stored) ∷ rest) = recorded rest
recorded ((_, foreign) ∷ rest) = recorded rest

-- The outcomes with a failure in front that is not flushed yet.
abbrev with_pending : Option ℕ → List (ℕ × Outcome) → List (ℕ × Outcome)
with_pending none rest = rest
with_pending (some t) rest = (t, missed) ∷ rest

-- What the session holds of that failure.
abbrev unsaved_of : List ℕ → Option ℕ → Option (List ℕ)
unsaved_of ids none = none
unsaved_of ids (some t) = some (newest (ids ++ t ∷ []))

abbrev pub Short : List ℕ → Type 0
Short ids = length ids ≤ failed_token_ids_cap

newest_kept : (ids : List ℕ) → Short ids → ids ≡ newest (ids ++ [])
newest_kept ids h = sym (ap newest (append-nil ids) ∙ newest-short ids h)

-- A flush, and what is recorded behind it.
newest-flushed :
    (ids : List ℕ) (pending : Option ℕ) (t : ℕ) (rest : List (ℕ × Outcome))
    → newest (flushed ids (unsaved_of ids pending) ++ recorded rest)
      ≡ newest (ids ++ recorded (with_pending pending ((t, stored) ∷ rest)))
unfolding flushed
newest-flushed ids none t rest = refl
newest-flushed ids (some p) t rest =
    newest-append (ids ++ p ∷ []) (recorded rest)
    ∙ ap newest (append_assoc ids (p ∷ []) (recorded rest))

flushed-Short :
    (ids : List ℕ) (pending : Option ℕ) → Short ids → Short (flushed ids (unsaved_of ids pending))
unfolding flushed
flushed-Short ids none short = short
flushed-Short ids (some p) short = length-newest (ids ++ p ∷ [])

recorded-overtaken :
    (pending : Option ℕ) (t : ℕ) (rest : List (ℕ × Outcome))
    → recorded (with_pending pending ((t, missed) ∷ rest)) ≡ recorded ((t, missed) ∷ rest)
recorded-overtaken none t rest = refl
recorded-overtaken (some p) t rest = refl

recorded-foreign :
    (pending : Option ℕ) (t : ℕ) (rest : List (ℕ × Outcome))
    → recorded (with_pending pending ((t, foreign) ∷ rest)) ≡ recorded (with_pending pending rest)
recorded-foreign none t rest = refl
recorded-foreign (some p) t rest = refl

-- What a loop leaves, given the outcomes of its tokens and the failure that was pending.
record Recorded {W : Type 0} (before after : Enriched W) (pending : Option ℕ)
    (rest : List (ℕ × Outcome)) : Type 0 where
  upserts : after.upserted ≡ before.upserted + count_stored rest
  failures : after.failed ≡ before.failed + count_missed rest
  ids :
      flushed after.failed_token_ids after.unsaved
      ≡ newest (before.failed_token_ids ++ recorded (with_pending pending rest))

module _ {W : Type 0} (get_agent : ℕ → W → Fetched × W) (now : Json) where
  Recorded-missed :
      (t : ℕ) (w : W) (e after : Enriched W) (pending : Option ℕ) (rest : List (ℕ × Outcome))
      → Recorded (failure get_agent now t w e) after (some t) rest
      → Recorded e after pending ((t, missed) ∷ rest)
  unfolding failure
  Recorded-missed t w e after pending rest r = record {
    upserts = r.upserts;
    failures = omega (arith, r.failures);
    ids = rw (recorded-overtaken pending t rest) r.ids;
  }

  Recorded-foreign :
      (t : ℕ) (w : W) (e after : Enriched W) (pending : Option ℕ) (rest : List (ℕ × Outcome))
      → Recorded (record e { other_chain = e.other_chain + 1; world = w }) after pending rest
      → Recorded e after pending ((t, foreign) ∷ rest)
  Recorded-foreign t w e after pending rest r = record {
    upserts = r.upserts;
    failures = r.failures;
    ids = rw (recorded-foreign pending t rest) r.ids;
  }

  Recorded-stored :
      (t : ℕ) (agent : Attributes) (w : W) (e after : Enriched W) (pending : Option ℕ)
      (rest : List (ℕ × Outcome))
      → e.unsaved ≡ unsaved_of e.failed_token_ids pending
      → Recorded (store_agent get_agent now t agent w e) after none rest
      → Recorded e after pending ((t, stored) ∷ rest)
  unfolding store_agent
  Recorded-stored t agent w e after pending rest u r = record {
    upserts = omega (arith, r.upserts);
    failures = r.failures;
    ids =
        r.ids
        ∙ ap (λ k. newest (flushed e.failed_token_ids k ++ recorded rest)) u
        ∙ newest-flushed e.failed_token_ids pending t rest;
  }

  enrich-Recorded :
      (token_ids : List ℕ) (e : Enriched W) (pending : Option ℕ)
      → Short e.failed_token_ids
      → e.unsaved ≡ unsaved_of e.failed_token_ids pending
      → Recorded e
          (enrich_and_upsert get_agent now token_ids e)
          pending
          (outcomes get_agent token_ids e.world)
  unfolding enrich_and_upsert
  enrich-Recorded [] e none short u = record {
    upserts = omega arith;
    failures = omega arith;
    ids = unfold flushed in rw u (newest_kept e.failed_token_ids short);
  }
  enrich-Recorded [] e (some t) short u = record {
    upserts = omega arith;
    failures = omega arith;
    ids = unfold flushed in rw u refl;
  }
  enrich-Recorded (t ∷ token_ids) e pending short u =
      let answer = get_agent t e.world in
      let rest = outcomes get_agent token_ids answer.1 in
      let failed_one = failure get_agent now t answer.1 e in
      let lost =
        Recorded-missed t answer.1 e (enrich_and_upsert get_agent now token_ids failed_one) pending
          rest
          (enrich-Recorded token_ids failed_one (some t) (unfold failure in short)
            (unfold failure record_token_failure in refl)) in
      elim (Fetched-cases answer.0) [
        | inl (agent, f) ↦ elim (Bool-cases (is_other_chain (agent (codes "chain_id")))) [
          | inl far ↦
              let skipped = record e { other_chain = e.other_chain + 1; world = answer.1 } in
              rw (enrich_one, f, far)
                (Recorded-foreign t answer.1 e (enrich_and_upsert get_agent now token_ids skipped)
                  pending rest (enrich-Recorded token_ids skipped pending short u))
          | inr near ↦
              let made = store_agent get_agent now t agent answer.1 e in
              let size : Short made.failed_token_ids =
                unfold store_agent in rw u (flushed-Short e.failed_token_ids pending short) in
              rw (enrich_one, f, near)
                (Recorded-stored t agent answer.1 e (enrich_and_upsert get_agent now token_ids made)
                  pending rest u
                  (enrich-Recorded token_ids made none size (unfold store_agent in refl)))
        ]
        | inr (inl f) ↦ rw (enrich_one, f) lost
        | inr (inr f) ↦ rw (enrich_one, f) lost
      ]

module _ {W : Type 0} (get_agent : ℕ → W → Fetched × W) (iter_agents : W → List Listed × W)
    (stamp : ℕ → Json) where
  -- The outcomes of the tokens that a run walks.
  abbrev pub run_outcomes : ℕ → W → List (ℕ × Outcome)
  run_outcomes batch w =
      let listing = iter_agents w in
      outcomes get_agent (discover_bsc_token_ids batch 0 listing.0).token_ids listing.1

  -- Where at most 1000 failures are recorded, a run of the sync counts the agents that it stores and the
  -- failures by the upstream's answers, and puts behind the old list those failures that no further
  -- failure follows before the next stored agent, of which the newest 1000 are kept.
  pub run_sync-Recorded :
      (batch now : ℕ) (s : SyncStore) (w : W)
      → Short (ensure_sync_state s.state).failed_token_ids
      → let (report, after, _) = run_sync get_agent iter_agents stamp batch now s w in
        let answers = run_outcomes batch w in
        (report.upserted ≡ count_stored answers)
        × (report.failed ≡ count_missed answers)
        × ((ensure_sync_state after.state).failed_token_ids
            ≡ newest ((ensure_sync_state s.state).failed_token_ids ++ recorded answers))
  unfolding run_sync ensure_sync_state
  run_sync-Recorded batch now s w short =
      let listing = iter_agents w in
      let r =
        enrich-Recorded get_agent (stamp now) (discover_bsc_token_ids batch 0 listing.0).token_ids _
          none short refl in
      (omega (arith, r.upserts), omega (arith, r.failures), r.ids)
