-- ===== src/Score/Starved.antt =====
-- An agent whose score cannot be computed stops every cycle that selects it.
use bnb_agent_marketplace.Base.{
  sym, text_eq_iff, Option-cases, ap, some_eq, Bool-cases, Text, text_eq, ℕ, ◌≡◌, refl, ◌∙◌, inl,
  inr, Bool, true, false, ◌||◌, some, List, [], ◌∷◌, subst, ◌++◌, arith,
}
use bnb_agent_marketplace.Errors.{ok-injective, Error, ok, err, Result-cases}
use bnb_agent_marketplace.Score.Worker.{
  probe_agent, probe_rows_in, ProbeStore, find_agent_row, update_agent, track_pillar, TermixProbe,
  ProbedAgent, declared_a2a_endpoint, select_probeable, materialized, probe_cycle, AgentProbe,
}

find-update :
    (aid own : Text) (f : ProbedAgent → ProbedAgent) (l : List ProbedAgent) {a : ProbedAgent}
    → ((b : ProbedAgent) → ((f b).agent_id ≡ b.agent_id) × ((f b).created_at ≡ b.created_at))
    → find_agent_row aid l ≡ some a
    → (b : ProbedAgent) × (find_agent_row aid (update_agent own f l) ≡ some b)
      × (b.agent_id ≡ a.agent_id)
      × (b.created_at ≡ a.created_at)
unfolding find_agent_row update_agent
find-update aid own f [] keep e = absurd (cc)
find-update aid own f (x ∷ l) {a} keep e = elim (Bool-cases (text_eq x.agent_id aid)) [
  | inl here ↦
      let same : x ≡ a = some_eq (rw here at e) in
      elim (Bool-cases (text_eq x.agent_id own)) [
        | inl mine ↦
            let there : text_eq (f x).agent_id aid ≡ true = rw (keep x).0 here in
            rw (mine, there)
              (
                f x,
                refl,
                (keep x).0 ∙ ap (λ b. b.agent_id) same,
                (keep x).1 ∙ ap (λ b. b.created_at) same,
              )
        | inr other ↦
            rw (other, here) (x, refl, ap (λ b. b.agent_id) same, ap (λ b. b.created_at) same)
      ]
  | inr there ↦
      let rest = find-update aid own f l keep (rw there at e) in
      elim (Bool-cases (text_eq x.agent_id own)) [
        | inl mine ↦
            let away : text_eq (f x).agent_id aid ≡ false = rw (keep x).0 there in
            rw (mine, away) rest
        | inr other ↦ rw (other, there) rest
      ]
]

-- The track record of the agent with this key cannot be computed at this time.
abbrev pub Failing : ProbeStore → ℕ → Text → Type 0
Failing s now aid =
    (a : ProbedAgent) × (find_agent_row aid s.agents ≡ some a)
    × ((e : Error) × (track_pillar s a now ≡ err e))

abbrev pub selected : Text → List (Text × ℕ) → Bool
selected aid [] = false
selected aid ((key, _) ∷ rows) = text_eq key aid || selected aid rows

module _ {W : Type 0} (isoformat : ℕ → Text) (probe_termix_card : ℕ → W → TermixProbe × W)
    (now : ℕ) where
  updated-Failing :
      (own : Text) (p : TermixProbe) (track : ℕ) (probes : List AgentProbe) (s : ProbeStore)
      (aid : Text)
      → Failing s now aid
      → Failing
          (record s {
            agents =
                update_agent own (materialized isoformat probe_termix_card now p track) s.agents;
            probes = probes;
          })
          now
          aid
  updated-Failing own p track probes s aid (a, there, (e, bad)) =
      let kept =
        find-update aid own (materialized isoformat probe_termix_card now p track) s.agents
          (λ b. unfold materialized in (refl, refl)) there in
      let same : track_pillar
            (record s {
              agents =
                  update_agent own (materialized isoformat probe_termix_card now p track) s.agents;
              probes = probes;
            })
            kept.0 now
          ≡ track_pillar s a now =
        unfold track_pillar in rw (kept.2, kept.3) refl in
      (kept.0, kept.1, (e, same ∙ bad))

  probe_agent-Failing :
      (own : Text) (token_id : ℕ) (s next : ProbeStore) (w : W) (aid : Text)
      → (probe_agent isoformat probe_termix_card now own token_id s w).0 ≡ ok next
      → Failing s now aid
      → Failing next now aid
  unfolding probe_agent
  probe_agent-Failing own token_id s next w aid done h =
      let answer = probe_termix_card token_id w in
      elim (Option-cases (find_agent_row own s.agents)) [
        | inl gone ↦
            subst (λ t. Failing t now aid) (ok-injective (rw (probe_agent, gone) at done)) h
        | inr (b, row) ↦ elim (Result-cases (track_pillar s b now)) [
          | inr (e, f) ↦ absurd (ground (arith, row, f, done))
          | inl (track, f) ↦
              subst (λ t. Failing t now aid) (ok-injective (rw (probe_agent, row, f) at done))
                (updated-Failing own answer.0 track
                  (s.probes
                    ++ record {
                      agent_id = own;
                      probed_at = now;
                      probe = answer.0;
                      endpoint = declared_a2a_endpoint b.services;
                    }
                      ∷ [])
                  s aid h)
        ]
      ]

  probe_agent-raises :
      (token_id : ℕ) (s : ProbeStore) (w : W) (aid : Text)
      → Failing s now aid
      → (e : Error) × ((probe_agent isoformat probe_termix_card now aid token_id s w).0 ≡ err e)
  unfolding probe_agent
  probe_agent-raises token_id s w aid (a, there, (e, bad)) = (e, rw (probe_agent, there, bad) refl)

  probe_rows-raises :
      (rows : List (Text × ℕ)) (s : ProbeStore) (w : W) (aid : Text)
      → Failing s now aid
      → selected aid rows ≡ true
      → (e : Error) × ((probe_rows_in isoformat probe_termix_card now rows s w).0 ≡ err e)
  unfolding probe_rows_in
  probe_rows-raises [] s w aid h m = absurd (cc)
  probe_rows-raises ((key, token_id) ∷ rows) s w aid h m =
      let one = probe_agent isoformat probe_termix_card now key token_id s w in
      elim (Result-cases one.0) [
        | inr (e, f) ↦ rw (probe_rows_in, f) (e, refl)
        | inl (next, f) ↦ elim (Bool-cases (text_eq key aid)) [
          | inl here ↦
              let (e, raised) =
                subst
                  (λ k.
                    (e : Error) × ((probe_agent isoformat probe_termix_card now k token_id s w).0
                      ≡ err e))
                  (sym ((text_eq_iff key aid).0 here)) (probe_agent-raises token_id s w aid h) in
              absurd (cc)
          | inr there ↦
              rw (probe_rows_in, f)
                (probe_rows-raises rows next one.1 aid
                  (probe_agent-Failing key token_id s next w aid f h) (rw there at m))
        ]
      ]

  -- Where the track record of a selected agent cannot be computed, as that of one with an event
  -- within the last day, the cycle raises and leaves every agent as it was, so that the agents keep
  -- their places in the selection.
  pub probe_cycle_starved :
      (id_before : Text → Text → Bool) (limit : ℕ) (s : ProbeStore) (w : W) (aid : Text)
      → Failing s now aid
      → selected aid (select_probeable id_before limit s.agents) ≡ true
      → (e : Error) × ((probe_cycle isoformat probe_termix_card id_before limit now s w).0 ≡ err e)
        × ((probe_cycle isoformat probe_termix_card id_before limit now s w).1 ≡ s)
  unfolding probe_cycle
  probe_cycle_starved id_before limit s w aid h m =
      let (e, raised) = probe_rows-raises (select_probeable id_before limit s.agents) s w aid h m in
      rw (probe_cycle, raised) (e, refl, refl)
