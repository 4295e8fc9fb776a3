-- ===== src/Categories/Reclassify.antt =====
-- app/services/reclassify.py: the pass that classifies every cached agent again, with the columns of
-- app/db/models/agent.py that it reads.
use bnb_agent_marketplace.Base.{
  ◌==◌, if◌then◌else◌, length, Text, codes, text_eq, ℕ, ◌+◌, Bool, Option, none, some, List, [],
  ◌∷◌,
}
use bnb_agent_marketplace.Json.{Json, Items, Fields, nil, cons, end, obj, arr, get, as_str}
use bnb_agent_marketplace.Categories.{compute_category}
use bnb_agent_marketplace.Categories.Hints.{
  rebalancing, grid_trading, yield_optimisation, health_factor_monitoring, dev_automation,
  creative_design, marketing_content, data_analytics, security_compliance, admin_ops, other,
  Category,
}

pub record CachedAgent : Type 0 where
  pub agent_id : Text
  pub raw_metadata : Option Json
  pub tags : List Json
  pub supported_protocols : List Json
  pub x402_supported : Bool
  pub description : Option Text
  pub category : Category

pub record ReclassifyReport : Type 0 where
  pub total : ℕ
  pub updated : ℕ
  pub by_category : List (Category × ℕ)

-- A dict, or the empty one where the value is missing, falsy or no dict.
unfoldable pub dict_or_empty : Option Json → Fields
dict_or_empty none = end
dict_or_empty (some (obj d)) = d
dict_or_empty (some _) = end

unfoldable pub items_of : Items → List Json
items_of nil = []
items_of (cons v vs) = v ∷ items_of vs

unfoldable pub list_or : Option Json → List Json → List Json
unfolding items_of
list_or none tags = tags
list_or (some (arr vs)) tags = items_of vs
list_or (some _) tags = tags

unfoldable pub classification_signals : CachedAgent → Option Text × List Json
unfolding dict_or_empty list_or get as_str
classification_signals row =
    let off = dict_or_empty (get (codes "offchain_content") (dict_or_empty row.raw_metadata)) in
    let termix = dict_or_empty (get (codes "termix") off) in
    let profile = dict_or_empty (get (codes "profile") termix) in
    (as_str (get (codes "category") profile), list_or (get (codes "tags") off) row.tags)

-- The category of a row by its signals.
unfoldable pub rich_category : CachedAgent → Category
unfolding classification_signals compute_category
rich_category row =
    let signals = classification_signals row in
    compute_category signals.0 signals.1 row.supported_protocols row.x402_supported row.description

-- The place of a category in `CATEGORIES`.
unfoldable pub place : Category → ℕ
place rebalancing = 0
place grid_trading = 1
place yield_optimisation = 2
place health_factor_monitoring = 3
place dev_automation = 4
place creative_design = 5
place marketing_content = 6
place data_analytics = 7
place security_compliance = 8
place admin_ops = 9
place other = 10

-- `a == b`
unfoldable pub same_category : Category → Category → Bool
unfolding place
same_category a b = place a == place b

-- `by_category[rich] = by_category.get(rich, 0) + 1`
unfoldable pub count_category : Category → List (Category × ℕ) → List (Category × ℕ)
unfolding same_category
count_category cat [] = (cat, 1) ∷ []
count_category cat ((c, n) ∷ counts) =
    if same_category c cat then (c, n + 1) ∷ counts else (c, n) ∷ count_category cat counts

-- The loop over the rows: the counts, and the updates in order.
unfoldable pub plan_updates :
    List CachedAgent → List (Category × ℕ) → List (Category × ℕ) × List (Category × Text)
unfolding rich_category count_category same_category
plan_updates [] counts = (counts, [])
plan_updates (row ∷ rows) counts =
    let rich = rich_category row in
    let rest = plan_updates rows (count_category rich counts) in
    (rest.0, if same_category rich row.category then rest.1 else (rich, row.agent_id) ∷ rest.1)

-- `UPDATE agent_cache SET category = :cat WHERE agent_id = :aid`
unfoldable pub update_category : Category → Text → List CachedAgent → List CachedAgent
unfolding text_eq
update_category cat aid [] = []
update_category cat aid (row ∷ rows) =
    (if text_eq row.agent_id aid then record row { category = cat } else row)
    ∷ update_category cat aid rows

-- All batches, one after the other.
unfoldable pub run_updates : List (Category × Text) → List CachedAgent → List CachedAgent
unfolding update_category
run_updates [] rows = rows
run_updates ((cat, aid) ∷ updates) rows = run_updates updates (update_category cat aid rows)

unfoldable pub reclassify_cached_agents : List CachedAgent → ReclassifyReport × List CachedAgent
unfolding plan_updates run_updates
reclassify_cached_agents rows =
    let planned = plan_updates rows [] in
    (
      record { total = length rows; updated = length planned.1; by_category = planned.0 },
      run_updates planned.1 rows,
    )
