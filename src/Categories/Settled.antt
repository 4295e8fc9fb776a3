-- ===== src/Categories/Settled.antt =====
-- What the pass over the cached agents leaves.
use bnb_agent_marketplace.Base.{
  arith, Bool-cases, All, Text, text_eq, text_eq_iff, ℕ, ◌≡◌, refl, sym, ap, ◌∙◌, ◌≢◌, inl, inr,
  true, List, [], ◌∷◌, map, ◌==◌, if◌then◌else◌, length, text_eq_refl, ◌+◌,
}
use bnb_agent_marketplace.Categories.Hints.{
  rebalancing, grid_trading, yield_optimisation, health_factor_monitoring, dev_automation,
  creative_design, marketing_content, data_analytics, security_compliance, admin_ops, other,
  Category,
}
use bnb_agent_marketplace.Categories.Reclassify.{
  CachedAgent, rich_category, place, same_category, count_category, plan_updates, update_category,
  run_updates, classification_signals, reclassify_cached_agents,
}

category_at : ℕ → Category
category_at n =
    if n == 0
    then rebalancing
    else if n == 1
    then grid_trading
    else if n == 2
    then yield_optimisation
    else if n == 3
    then health_factor_monitoring
    else if n == 4
    then dev_automation
    else if n == 5
    then creative_design
    else if n == 6
    then marketing_content
    else if n == 7
    then data_analytics
    else if n == 8
    then security_compliance
    else if n == 9
    then admin_ops
    else other

category_at-place : (c : Category) → category_at (place c) ≡ c
unfolding category_at place
category_at-place rebalancing = refl
category_at-place grid_trading = refl
category_at-place yield_optimisation = refl
category_at-place health_factor_monitoring = refl
category_at-place dev_automation = refl
category_at-place creative_design = refl
category_at-place marketing_content = refl
category_at-place data_analytics = refl
category_at-place security_compliance = refl
category_at-place admin_ops = refl
category_at-place other = refl

same_category_sound : (a b : Category) → same_category a b ≡ true → a ≡ b
unfolding same_category
same_category_sound a b e =
    let places : place a ≡ place b = ground (arith, e) in
    sym (category_at-place a) ∙ ap category_at places ∙ category_at-place b

same_category_refl : (a : Category) → same_category a a ≡ true
unfolding same_category
same_category_refl a = ground arith

-- The row with the category of its signals.
abbrev pub settled : CachedAgent → CachedAgent
settled row = record row { category = rich_category row }

-- No two rows have the same key.
abbrev pub IsUnique : List CachedAgent → Type 0
IsUnique [] = Unit
IsUnique (row ∷ rows) = All (λ other_row. other_row.agent_id ≢ row.agent_id) rows × IsUnique rows

update_category-absent :
    (cat : Category) (aid : Text) (rows : List CachedAgent)
    → All (λ row. row.agent_id ≢ aid) rows
    → update_category cat aid rows ≡ rows
unfolding update_category
update_category-absent cat aid [] a = refl
update_category-absent cat aid (row ∷ rows) (ne, a) = elim (Bool-cases (text_eq row.agent_id aid)) [
  | inl e ↦ absurd (ne ((text_eq_iff row.agent_id aid).0 e))
  | inr e ↦ rw (e, update_category-absent cat aid rows a) refl
]

-- Updates of other rows leave the first one alone.
run_updates-cons :
    (updates : List (Category × Text)) (row : CachedAgent) (rows : List CachedAgent)
    → All (λ update. update.1 ≢ row.agent_id) updates
    → run_updates updates (row ∷ rows) ≡ row ∷ run_updates updates rows
unfolding run_updates update_category
run_updates-cons [] row rows a = refl
run_updates-cons ((cat, aid) ∷ updates) row rows (ne, a) =
    elim (Bool-cases (text_eq row.agent_id aid)) [
      | inl e ↦ absurd (ne (sym ((text_eq_iff row.agent_id aid).0 e)))
      | inr e ↦ rw e (run_updates-cons updates row (update_category cat aid rows) a)
    ]

-- The update of the first row itself.
run_updates-own :
    (updates : List (Category × Text)) (row : CachedAgent) (rows : List CachedAgent)
    → All (λ other_row. other_row.agent_id ≢ row.agent_id) rows
    → run_updates ((rich_category row, row.agent_id) ∷ updates) (row ∷ rows)
      ≡ run_updates updates (settled row ∷ rows)
unfolding run_updates update_category
run_updates-own updates row rows ne =
    rw (text_eq_refl row.agent_id, update_category-absent (rich_category row) row.agent_id rows ne)
      refl

plan_updates-ids :
    (P : Text → Type 0) (rows : List CachedAgent) (counts : List (Category × ℕ))
    → All (λ row. P row.agent_id) rows
    → All (λ update. P update.1) (plan_updates rows counts).1
unfolding plan_updates
plan_updates-ids P [] counts a = tt
plan_updates-ids P (row ∷ rows) counts (p, a) =
    let rest = plan_updates-ids P rows (count_category (rich_category row) counts) a in
    elim (Bool-cases (same_category (rich_category row) row.category)) [
      | inl e ↦ rw e rest
      | inr e ↦ rw e (p, rest)
    ]

plan-settles :
    (rows : List CachedAgent) (counts : List (Category × ℕ))
    → IsUnique rows
    → run_updates (plan_updates rows counts).1 rows ≡ map settled rows
unfolding plan_updates
plan-settles [] counts u = unfold run_updates in refl
plan-settles (row ∷ rows) counts (ne, u) =
    let counted = count_category (rich_category row) counts in
    let others = plan_updates-ids (λ aid. aid ≢ row.agent_id) rows counted ne in
    let rest = plan-settles rows counted u in
    elim (Bool-cases (same_category (rich_category row) row.category)) [
      | inl e ↦
          let kept : settled row ≡ row =
            ap (λ cat. record row { category = cat })
              (same_category_sound (rich_category row) row.category e) in
          rw (e, run_updates-cons (plan_updates rows counted).1 row rows others, rest, kept) refl
      | inr e ↦
          rw
            (
              e,
              run_updates-own (plan_updates rows counted).1 row rows ne,
              run_updates-cons (plan_updates rows counted).1 (settled row) rows others,
              rest,
            )
            refl
    ]

plan-none :
    (rows : List CachedAgent) (counts : List (Category × ℕ))
    → (plan_updates (map settled rows) counts).1 ≡ []
unfolding plan_updates rich_category classification_signals
plan-none [] counts = refl
plan-none (row ∷ rows) counts =
    rw (same_category_refl (rich_category row))
      (plan-none rows (count_category (rich_category row) counts))

abbrev pub sum_counts : List (Category × ℕ) → ℕ
sum_counts [] = 0
sum_counts ((c, n) ∷ counts) = n + sum_counts counts

count_category-sum :
    (cat : Category) (counts : List (Category × ℕ))
    → sum_counts (count_category cat counts) ≡ sum_counts counts + 1
unfolding count_category
count_category-sum cat [] = refl
count_category-sum cat ((c, n) ∷ counts) = elim (Bool-cases (same_category c cat)) [
  | inl e ↦ rw e omega arith
  | inr e ↦ rw e omega (arith, count_category-sum cat counts)
]

plan_updates-sum :
    (rows : List CachedAgent) (counts : List (Category × ℕ))
    → sum_counts (plan_updates rows counts).0 ≡ sum_counts counts + length rows
unfolding plan_updates
plan_updates-sum [] counts = omega arith
plan_updates-sum (row ∷ rows) counts = omega (
  arith,
  plan_updates-sum rows (count_category (rich_category row) counts),
  count_category-sum (rich_category row) counts,
)

-- Where no key stands twice, the pass leaves each row with the category of its signals and otherwise
-- as it was, in the same order; the counts by category add up to the number of rows; and a second
-- pass updates nothing.
pub reclassify-settles :
    (rows : List CachedAgent)
    → IsUnique rows
    → ((reclassify_cached_agents rows).1 ≡ map settled rows)
      × (sum_counts (reclassify_cached_agents rows).0.by_category ≡ length rows)
      × ((reclassify_cached_agents (reclassify_cached_agents rows).1).0.updated ≡ 0)
unfolding reclassify_cached_agents
reclassify-settles rows unique =
    let first = plan-settles rows [] unique in
    (first, omega (arith, plan_updates-sum rows []), rw (first, plan-none rows []) refl)
