-- ===== src/Sync/Rows.antt =====
-- app/services/sync_worker.py: a row of `agent_cache` from an upstream agent, the upsert of it and the
-- category it gets. A row of the table is a function of the column's name.
use bnb_agent_marketplace.Base.{
  ℕ, ◌==◌, if◌then◌else◌, Text, codes, text_eq, Bool, true, false, not, ◌&&◌, some, List, [], ◌∷◌,
  ◌++◌,
}
use bnb_agent_marketplace.Base.Int.{pos, negsuc}
use bnb_agent_marketplace.Json.{
  Json, null, bool, int, float, nan, infinite, str, arr, obj, nil, cons, end, get, as_str,
}
use bnb_agent_marketplace.Payment.Validators.Decimal.{decimal}
use bnb_agent_marketplace.Indexer.Scan.{identity_registry}
use bnb_agent_marketplace.Score.Track.{member}
use bnb_agent_marketplace.Categories.{compute_category}
use bnb_agent_marketplace.Categories.Hints.{
  rebalancing, grid_trading, yield_optimisation, health_factor_monitoring, dev_automation,
  creative_design, marketing_content, data_analytics, security_compliance, admin_ops, other,
  Category,
}
use bnb_agent_marketplace.Categories.Reclassify.{dict_or_empty, list_or}
use bnb_agent_marketplace.Sync.Columns.{
  Conversion, Source, plain, as_bool, or_zero, or_list, or_dict, or_int, or_text, column_of,
  constant, identity, row_sources, set_exprs, local_owned,
}

-- `bool(v)`
unfoldable pub is_truthy : Json → Bool
is_truthy null = false
is_truthy (bool b) = b
is_truthy (int (pos n)) = not (n == 0)
is_truthy (int (negsuc _)) = true
is_truthy (float (pos n) whole) = not (whole && n == 0)
is_truthy (float (negsuc _) _) = true
is_truthy nan = true
is_truthy infinite = true
is_truthy (str []) = false
is_truthy (str (_ ∷ _)) = true
is_truthy (arr nil) = false
is_truthy (arr (cons _ _)) = true
is_truthy (obj end) = false
is_truthy (obj _) = true

unfoldable pub convert : Conversion → Json → Json
unfolding is_truthy
convert plain v = v
convert as_bool v = bool (is_truthy v)
convert or_zero v = if is_truthy v then v else int (pos 0)
convert or_list v = if is_truthy v then v else arr nil
convert or_dict v = if is_truthy v then v else obj end
convert (or_int n) null = int (pos n)
convert (or_int n) v = v
convert (or_text t) v = if is_truthy v then v else str t

-- The attributes of an upstream agent, and a row of the table.
abbrev pub Attributes : Type 0
Attributes = Text → Json

-- `n or d`, for an identifier.
unfoldable pub number_or : ℕ → Json → ℕ
number_or d (int (pos n)) = if n == 0 then d else n
number_or d _ = d

unfoldable pub canonical_agent_id : ℕ → ℕ → Text
unfolding decimal
canonical_agent_id chain_id token_id =
    decimal chain_id ++ codes ":" ++ identity_registry ++ codes ":" ++ decimal token_id

unfoldable pub agent_id_column : Attributes → Json
unfolding is_truthy number_or canonical_agent_id
agent_id_column agent =
    if is_truthy (agent (codes "agent_id"))
    then agent (codes "agent_id")
    else str (
        canonical_agent_id (number_or 56 (agent (codes "chain_id")))
          (number_or 0 (agent (codes "token_id"))))

unfoldable pub column_from : List (Text × Source) → Attributes → Text → Json
unfolding convert agent_id_column text_eq
column_from [] agent col = null
column_from ((name, source) ∷ sources) agent col =
    let rest = column_from sources agent col in
    if text_eq name col
    then (elim source [
      | column_of conversion attribute ↦ convert conversion (agent attribute)
      | constant t ↦ str t
      | identity ↦ agent_id_column agent
    ])
    else rest

unfoldable pub row_from_agent : Attributes → Attributes
unfolding column_from
row_from_agent = column_from row_sources

-- The columns that an update writes, and their values: `_build_set_exprs`.
unfoldable pub set_row : Json → Attributes → Attributes → Attributes
unfolding member text_eq
set_row now row old col =
    if text_eq col (codes "updated_at")
    then now
    else if member col set_exprs && not (member col local_owned)
    then row col
    else old col

-- A new row; the defaults of the other columns are not modelled.
unfoldable pub new_row : Json → Attributes → Attributes
unfolding text_eq
new_row now row col =
    if text_eq col (codes "updated_at")
    then now
    else if text_eq col (codes "category")
    then str (codes "other")
    else row col

unfoldable pub upsert_agent :
    Json → Text → Attributes → List (Text × Attributes) → List (Text × Attributes)
unfolding set_row new_row text_eq
upsert_agent now aid row [] = (aid, new_row now row) ∷ []
upsert_agent now aid row ((key, old) ∷ table) =
    if text_eq key aid
    then (key, set_row now row old) ∷ table
    else (key, old) ∷ upsert_agent now aid row table

unfoldable pub category_name : Category → Text
category_name rebalancing = codes "rebalancing"
category_name grid_trading = codes "grid_trading"
category_name yield_optimisation = codes "yield_optimisation"
category_name health_factor_monitoring = codes "health_factor_monitoring"
category_name dev_automation = codes "dev_automation"
category_name creative_design = codes "creative_design"
category_name marketing_content = codes "marketing_content"
category_name data_analytics = codes "data_analytics"
category_name security_compliance = codes "security_compliance"
category_name admin_ops = codes "admin_ops"
category_name other = codes "other"

unfoldable pub set_category : Text → Text → List (Text × Attributes) → List (Text × Attributes)
unfolding text_eq
set_category cat aid [] = []
set_category cat aid ((key, row) ∷ table) =
    (key, λ col. if text_eq key aid && text_eq col (codes "category") then str cat else row col)
    ∷ set_category cat aid table

-- The category by the upstream's signals.
unfoldable pub upstream_category : Attributes → Category
unfolding dict_or_empty list_or compute_category is_truthy get as_str
upstream_category agent =
    let off =
      dict_or_empty
        (get (codes "offchain_content") (dict_or_empty (some (agent (codes "raw_metadata"))))) in
    let termix = dict_or_empty (get (codes "termix") off) in
    let profile = dict_or_empty (get (codes "profile") termix) in
    compute_category (as_str (get (codes "category") profile))
      (list_or (get (codes "tags") off) (list_or (some (agent (codes "tags"))) []))
      (list_or (some (agent (codes "supported_protocols"))) [])
      (is_truthy (agent (codes "x402_supported"))) (as_str (some (agent (codes "description"))))

-- `rich in {"rebalancing", "other"}`
unfoldable pub is_default : Category → Bool
is_default rebalancing = true
is_default other = true
is_default _ = false

unfoldable pub maybe_enrich_category :
    Attributes → Text → List (Text × Attributes) → List (Text × Attributes)
unfolding upstream_category set_category category_name is_default
maybe_enrich_category agent aid table =
    let rich = upstream_category agent in
    if is_default rich then table else set_category (category_name rich) aid table
