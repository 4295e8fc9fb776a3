-- ===== src/Sync.antt =====
-- app/services/sync_worker.py: the mirror of the agents of the upstream registry in `agent_cache`. A row of
-- the table is a function of the column's name. The pauses, the progress commits and the mirror of
-- the agents' reviews, which writes another table, are left out. The upstream's attributes have the
-- types of their schema.
pub mod Columns
pub mod Rows
pub mod Owned
pub mod Newest
pub mod Failures
use bnb_agent_marketplace.Base.{
  ℕ, ◌==◌, if◌then◌else◌, is_some, length, drop, Text, codes, text_eq, is_empty, strip_prefix, ◌+◌,
  ◌-◌, max, Bool, true, false, not, ◌||◌, some, List, [], ◌∷◌, ◌++◌, leb, Option, none,
}
use bnb_agent_marketplace.Base.Int.{ℤ, pos, negsuc}
use bnb_agent_marketplace.Json.{Json, int, str}
use bnb_agent_marketplace.Indexer.Scan.{identity_registry}
use bnb_agent_marketplace.Indexer.Store.{build_agent_id}
use bnb_agent_marketplace.Sync.Rows.{
  Attributes, row_from_agent, upsert_agent, maybe_enrich_category,
}

abbrev pub failed_token_ids_cap : ℕ
failed_token_ids_cap = 1000

-- `failed[-CAP:]`
unfoldable pub newest : List ℕ → List ℕ
newest ids = drop (length ids - failed_token_ids_cap) ids

unfoldable pub record_token_failure : ℕ → List ℕ → List ℕ
unfolding newest
record_token_failure token_id failed = newest (failed ++ token_id ∷ [])

-- `agent.chain_id is not None and int(agent.chain_id) != BSC_CHAIN_ID`
unfoldable pub is_other_chain : Json → Bool
is_other_chain (int (pos n)) = not (n == 56)
is_other_chain (int (negsuc _)) = true
is_other_chain _ = false

unfoldable pub has_colon : Text → Bool
has_colon [] = false
has_colon (c ∷ s) = c == b':' || has_colon s

abbrev pub text_or_empty : Json → Text
text_or_empty (str t) = t
text_or_empty _ = []

-- The agent's own id where it is one of the chain, or a built one.
unfoldable pub consistent_id : ℕ → Text → Text
unfolding strip_prefix build_agent_id has_colon
consistent_id token_id aid =
    if is_empty aid || not (is_some (strip_prefix (codes "56:") aid))
    then build_agent_id token_id
    else if not (has_colon aid)
    then codes "56:" ++ identity_registry ++ codes ":" ++ aid
    else aid

unfoldable pub with_id : Text → Attributes → Attributes
unfolding text_eq
with_id aid agent name = if text_eq name (codes "agent_id") then str aid else agent name

-- `client.get_agent`: an agent, none, or one of the upstream's errors.
pub data Fetched : Type 0 where
  found : Attributes → Fetched
  gap upstream_error : Fetched

-- `max(last, token_id)`, where the last one starts at -1.
unfoldable pub max_token : ℤ → ℕ → ℕ
max_token (pos n) token_id = max n token_id
max_token (negsuc _) token_id = token_id

-- The counters of the loop, the two tables and the world. `unsaved` is the list of failures that the
-- session's `SyncState` holds where it is not flushed yet: the query of `_record_failure` is a text,
-- before which the session does not flush, and reads `failed_token_ids`.
pub record Enriched (W : Type 0) : Type 0 where
  pub upserted : ℕ
  pub failed : ℕ
  pub other_chain : ℕ
  pub last_token_id : ℤ
  pub table : List (Text × Attributes)
  pub failed_token_ids : List ℕ
  pub unsaved : Option (List ℕ)
  pub world : W

-- The list of failures after a flush.
unfoldable pub flushed : List ℕ → Option (List ℕ) → List ℕ
flushed ids none = ids
flushed ids (some unsaved) = unsaved

module _ {W : Type 0} (get_agent : ℕ → W → Fetched × W) (now : Json) where
  unfoldable pub failure : ℕ → W → Enriched W → Enriched W
  unfolding record_token_failure
  failure token_id w e = record e {
    failed = e.failed + 1;
    unsaved = some (record_token_failure token_id e.failed_token_ids);
    world = w;
  }

  -- The upsert is a statement of the ORM, before which the session flushes.
  unfoldable pub store_agent : ℕ → Attributes → W → Enriched W → Enriched W
  unfolding flushed consistent_id with_id row_from_agent upsert_agent maybe_enrich_category
      max_token
  store_agent token_id upstream w e =
      let aid = consistent_id token_id (text_or_empty (upstream (codes "agent_id"))) in
      let agent = with_id aid upstream in
      record e {
        upserted = e.upserted + 1;
        last_token_id = pos (max_token e.last_token_id token_id);
        table =
            maybe_enrich_category agent aid (upsert_agent now aid (row_from_agent agent) e.table);
        failed_token_ids = flushed e.failed_token_ids e.unsaved;
        unsaved = none;
        world = w;
      }

  -- The body of the loop.
  unfoldable pub enrich_one : ℕ → Enriched W → Enriched W
  unfolding failure store_agent is_other_chain
  enrich_one token_id e =
      let answer = get_agent token_id e.world in
      elim answer.0 [
        | gap ↦ failure token_id answer.1 e
        | upstream_error ↦ failure token_id answer.1 e
        | found agent ↦
            if is_other_chain (agent (codes "chain_id"))
            then record e { other_chain = e.other_chain + 1; world = answer.1 }
            else store_agent token_id agent answer.1 e
      ]

  unfoldable pub enrich_and_upsert : List ℕ → Enriched W → Enriched W
  unfolding enrich_one
  enrich_and_upsert [] e = e
  enrich_and_upsert (token_id ∷ token_ids) e = enrich_and_upsert token_ids (enrich_one token_id e)

-- One entry of the listing, with the attributes that the discovery reads.
pub record Listed : Type 0 where
  pub chain_id : Json
  pub token_id : Option ℕ

pub record Discovered : Type 0 where
  pub token_ids : List ℕ
  pub fetched : ℕ
  pub skipped_wrong_chain : ℕ

abbrev pub one_more : ℕ → Discovered → Discovered
one_more wrong d = record d {
  fetched = d.fetched + 1;
  skipped_wrong_chain = d.skipped_wrong_chain + wrong;
}

-- The walk of the listing, with the number of tokens so far.
unfoldable pub discover_bsc_token_ids : ℕ → ℕ → List Listed → Discovered
unfolding is_other_chain
discover_bsc_token_ids limit n [] = record { token_ids = []; fetched = 0; skipped_wrong_chain = 0 }
discover_bsc_token_ids limit n (agent ∷ agents) =
    let rest = discover_bsc_token_ids limit n agents in
    let more = discover_bsc_token_ids limit (n + 1) agents in
    if is_other_chain agent.chain_id then one_more 1 rest else (elim agent.token_id [
      | none ↦ one_more 0 rest
      | some t ↦
          if leb limit (n + 1)
          then record { token_ids = t ∷ []; fetched = 1; skipped_wrong_chain = 0 }
          else record (one_more 0 more) { token_ids = t ∷ more.token_ids }
    ])

pub record SyncState : Type 0 where
  pub last_token_id : ℤ
  pub last_sync_at : Option ℕ
  pub failed_token_ids : List ℕ

pub record SyncReport : Type 0 where
  pub walked : ℕ
  pub upserted : ℕ
  pub skipped : ℕ
  pub failed : ℕ
  pub last_token_id : ℤ

pub record SyncStore : Type 0 where
  pub agents : List (Text × Attributes)
  pub state : Option SyncState

-- `_ensure_sync_state`
unfoldable pub ensure_sync_state : Option SyncState → SyncState
ensure_sync_state none = record {
  last_token_id = negsuc 0;
  last_sync_at = none;
  failed_token_ids = [];
}
ensure_sync_state (some state) = state

module _ {W : Type 0} (get_agent : ℕ → W → Fetched × W) (iter_agents : W → List Listed × W)
    (stamp : ℕ → Json) where
  -- `now` is the clock of the database and of the run.
  unfoldable pub run_sync : ℕ → ℕ → SyncStore → W → SyncReport × SyncStore × W
  unfolding discover_bsc_token_ids enrich_and_upsert ensure_sync_state flushed
  run_sync batch now s w =
      let listing = iter_agents w in
      let discovered = discover_bsc_token_ids batch 0 listing.0 in
      let state = ensure_sync_state s.state in
      let start : Enriched W = record {
        upserted = 0;
        failed = 0;
        other_chain = 0;
        last_token_id = negsuc 0;
        table = s.agents;
        failed_token_ids = state.failed_token_ids;
        unsaved = none;
        world = listing.1;
      } in
      let e = enrich_and_upsert get_agent (stamp now) discovered.token_ids start in
      (
        record {
          walked = length discovered.token_ids;
          upserted = e.upserted;
          skipped = discovered.skipped_wrong_chain;
          failed = e.failed;
          last_token_id = e.last_token_id;
        },
        record {
          agents = e.table;
          state = some (record {
            last_token_id = e.last_token_id;
            last_sync_at = some now;
            failed_token_ids = flushed e.failed_token_ids e.unsaved;
          });
        },
        e.world,
      )
