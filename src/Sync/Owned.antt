-- ===== src/Sync/Owned.antt =====
-- The columns that the sync leaves to others.
use bnb_agent_marketplace.Base.{
  arith, if◌then◌else◌, Bool-cases, Text, codes, text_eq, ◌≡◌, refl, inl, inr, true, false, Option,
  none, some, List, [], ◌∷◌, text_eq_iff, ℕ, subst, ◌∙◌, ◌⊎◌,
}
use bnb_agent_marketplace.Json.{Json}
use bnb_agent_marketplace.Sync.{
  found, gap, upstream_error, enrich_one, enrich_and_upsert, Fetched, Enriched, text_or_empty,
  consistent_id, with_id, failure, store_agent, discover_bsc_token_ids, run_sync, Listed, SyncStore,
  is_other_chain,
}
use bnb_agent_marketplace.Sync.Rows.{
  Attributes, upsert_agent, set_category, set_row, maybe_enrich_category, row_from_agent,
  category_name, upstream_category, is_default,
}
use bnb_agent_marketplace.Sync.Columns.{local_owned, set_exprs}
use bnb_agent_marketplace.Score.Track.{member}

abbrev pub column_at : Text → Text → List (Text × Attributes) → Option Json
column_at aid col [] = none
column_at aid col ((key, row) ∷ table) =
    if text_eq key aid then some (row col) else column_at aid col table

-- A column that is locally owned is not one that is not.
local-other :
    (col name : Text)
    → member name local_owned ≡ false
    → member col local_owned ≡ true
    → text_eq col name ≡ false
local-other col name out h = elim (Bool-cases (text_eq col name)) [
  | inl e ↦
      let back : member name local_owned ≡ true =
        subst (λ t. member t local_owned ≡ true) ((text_eq_iff col name).0 e) h in
      absurd (cc)
  | inr e ↦ e
]

updated_at-other : member (codes "updated_at") local_owned ≡ false
unfolding member text_eq
updated_at-other = refl

category-other : member (codes "category") local_owned ≡ false
unfolding member text_eq
category-other = refl

set_row-local :
    (now : Json) (row old : Attributes) (col : Text)
    → member col local_owned ≡ true
    → set_row now row old col ≡ old col
unfolding set_row
set_row-local now row old col h =
    let stamp = local-other col (codes "updated_at") updated_at-other h in
    elim (Bool-cases (member col set_exprs)) [
      | inl e ↦ rw (stamp, e, h) refl
      | inr e ↦ rw (stamp, e) refl
    ]

upsert_agent-local :
    (now : Json) (own : Text) (row : Attributes) (aid col : Text) (table : List (Text × Attributes))
    {v : Json}
    → member col local_owned ≡ true
    → column_at aid col table ≡ some v
    → column_at aid col (upsert_agent now own row table) ≡ some v
unfolding upsert_agent
upsert_agent-local now own row aid col [] h e = absurd (cc)
upsert_agent-local now own row aid col ((key, old) ∷ table) h e =
    elim (Bool-cases (text_eq key own)) [
      | inl same ↦ rw (same, set_row-local now row old col h) e
      | inr differs ↦ elim (Bool-cases (text_eq key aid)) [
        | inl here ↦ rw (differs, here) (rw here at e)
        | inr there ↦
            rw (differs, there) (upsert_agent-local now own row aid col table h (rw there at e))
      ]
    ]

set_category-local :
    (cat own : Text) (aid col : Text) (table : List (Text × Attributes))
    → member col local_owned ≡ true
    → column_at aid col (set_category cat own table) ≡ column_at aid col table
unfolding set_category
set_category-local cat own aid col [] h = refl
set_category-local cat own aid col ((key, row) ∷ table) h =
    let other = local-other col (codes "category") category-other h in
    ground (arith, set_category-local cat own aid col table h, other)

pub Fetched-cases :
    (f : Fetched) → ((agent : Attributes) × (f ≡ found agent)) ⊎ ((f ≡ gap) ⊎ (f ≡ upstream_error))
Fetched-cases (found agent) = inl (agent, refl)
Fetched-cases gap = inr (inl refl)
Fetched-cases upstream_error = inr (inr refl)

module _ {W : Type 0} (get_agent : ℕ → W → Fetched × W) (now : Json) where
  maybe_enrich-local :
      (agent : Attributes) (own aid col : Text) (table : List (Text × Attributes))
      → member col local_owned ≡ true
      → column_at aid col (maybe_enrich_category agent own table) ≡ column_at aid col table
  unfolding maybe_enrich_category
  maybe_enrich-local agent own aid col table h =
      elim (Bool-cases (is_default (upstream_category agent))) [
        | inl e ↦ rw (maybe_enrich_category, e) refl
        | inr e ↦
            rw (maybe_enrich_category, e)
              (set_category-local (category_name (upstream_category agent)) own aid col table h)
      ]

  store_agent-local :
      (token_id : ℕ) (upstream : Attributes) (w : W) (e : Enriched W) (aid col : Text) {v : Json}
      → member col local_owned ≡ true
      → column_at aid col e.table ≡ some v
      → column_at aid col (store_agent get_agent now token_id upstream w e).table ≡ some v
  unfolding store_agent
  store_agent-local token_id upstream w e aid col h there =
      let own = consistent_id token_id (text_or_empty (upstream (codes "agent_id"))) in
      let agent = with_id own upstream in
      maybe_enrich-local agent own aid col (upsert_agent now own (row_from_agent agent) e.table) h
      ∙ upsert_agent-local now own (row_from_agent agent) aid col e.table h there

  enrich_one-local :
      (token_id : ℕ) (e : Enriched W) (aid col : Text) {v : Json}
      → member col local_owned ≡ true
      → column_at aid col e.table ≡ some v
      → column_at aid col (enrich_one get_agent now token_id e).table ≡ some v
  unfolding enrich_one failure
  enrich_one-local token_id e aid col h there =
      let answer = get_agent token_id e.world in
      elim (Fetched-cases answer.0) [
        | inl (agent, f) ↦ elim (Bool-cases (is_other_chain (agent (codes "chain_id")))) [
          | inl far ↦ rw (enrich_one, f, far) there
          | inr near ↦
              rw (enrich_one, f, near) (store_agent-local token_id agent answer.1 e aid col h there)
        ]
        | inr (inl f) ↦ rw (enrich_one, f) there
        | inr (inr f) ↦ rw (enrich_one, f) there
      ]

  enrich-local :
      (token_ids : List ℕ) (e : Enriched W) (aid col : Text) {v : Json}
      → member col local_owned ≡ true
      → column_at aid col e.table ≡ some v
      → column_at aid col (enrich_and_upsert get_agent now token_ids e).table ≡ some v
  unfolding enrich_and_upsert
  enrich-local [] e aid col h there = there
  enrich-local (t ∷ token_ids) e aid col h there =
      enrich-local token_ids (enrich_one get_agent now t e) aid col h
        (enrich_one-local t e aid col h there)

module _ {W : Type 0} (get_agent : ℕ → W → Fetched × W) (iter_agents : W → List Listed × W)
    (stamp : ℕ → Json) where
  -- Whatever the upstream answers, a run of the sync leaves each locally owned column of each agent
  -- that is in the table as it is.
  pub run_sync-local :
      (batch now : ℕ) (s : SyncStore) (w : W) (aid col : Text) {v : Json}
      → member col local_owned ≡ true
      → column_at aid col s.agents ≡ some v
      → column_at aid col (run_sync get_agent iter_agents stamp batch now s w).1.agents ≡ some v
  unfolding run_sync
  run_sync-local batch now s w aid col h there =
      enrich-local get_agent (stamp now)
        (discover_bsc_token_ids batch 0 (iter_agents w).0).token_ids _ aid col h there
