-- ===== src/Examples/Syncing.antt =====
-- The sync, the mirror of listed addresses and the probe worker on small tables.
use bnb_agent_marketplace.Base.{
  arith, ◌==◌, if◌then◌else◌, length, Text, codes, text_eq, ℕ, ◌+◌, ◌≤◌, ◌≡◌, refl, Bool, true,
  none, some, List, [], ◌∷◌, ◌++◌,
}
use bnb_agent_marketplace.Errors.{Error, ok, err, zero_division, Result}
use bnb_agent_marketplace.Base.Int.{pos}
use bnb_agent_marketplace.Json.{Json, null, int, str, arr, obj, nil, cons, field, end}
use bnb_agent_marketplace.Sync.{
  Fetched, found, gap, Listed, SyncStore, run_sync, ensure_sync_state, newest, failed_token_ids_cap,
}
use bnb_agent_marketplace.Sync.Rows.{Attributes}
use bnb_agent_marketplace.Sync.Columns.{local_owned}
use bnb_agent_marketplace.Sync.Owned.{column_at, run_sync-local}
use bnb_agent_marketplace.Sync.Failures.{
  run_sync-Recorded, run_outcomes, count_stored, count_missed, recorded,
}
use bnb_agent_marketplace.Sync.{
  discover_bsc_token_ids, enrich_and_upsert, enrich_one, failure, record_token_failure, flushed,
  is_other_chain,
}
use bnb_agent_marketplace.Score.Track.{member}
use bnb_agent_marketplace.Compliance.Mirror.{refresh_flagged_addresses}
use bnb_agent_marketplace.Compliance.Mirrored.{IsMirror, refresh-IsMirror}
use bnb_agent_marketplace.Score.Track.{AgentEvent, active_today_raises}
use bnb_agent_marketplace.Score.Worker.{
  TermixProbe, ProbedAgent, ProbeStore, find_agent_row, track_pillar, select_probeable, probe_cycle,
}
use bnb_agent_marketplace.Score.Starved.{selected, probe_cycle_starved}
use bnb_agent_marketplace.Examples.World.{alice, bob}

-- An agent of BSC with an upstream activity score of 9; token 6 is missing upstream.
abbrev upstream : Attributes
upstream name =
    if text_eq name (codes "chain_id")
    then int (pos 56)
    else if text_eq name (codes "agent_id")
    then str (codes "56:r:5")
    else if text_eq name (codes "activity_score")
    then int (pos 9)
    else null

abbrev get_agent : ℕ → ℕ → Fetched × ℕ
get_agent token_id w = (if token_id == 5 then found upstream else gap, w + 1)

abbrev listed : ℕ → Listed
listed n = record { chain_id = int (pos 56); token_id = some n }

abbrev iter_agents : ℕ → List Listed × ℕ
iter_agents w = (listed 5 ∷ listed 6 ∷ [], w)

abbrev stamp : ℕ → Json
stamp n = int (pos n)

abbrev cached : Attributes
cached name = if text_eq name (codes "activity_score") then int (pos 80) else null

abbrev cache : SyncStore
cache = record { agents = (codes "56:r:5", cached) ∷ []; state = none }

score_local : member (codes "activity_score") local_owned ≡ true
unfolding member text_eq
score_local = refl

score_cached :
    column_at (codes "56:r:5") (codes "activity_score") cache.agents ≡ some (int (pos 80))
unfolding text_eq
score_cached = refl

run_sync-local_example :
    column_at
      (codes "56:r:5")
      (codes "activity_score")
      (run_sync get_agent iter_agents stamp 10 7 cache 0).1.agents
    ≡ some (int (pos 80))
run_sync-local_example =
    run_sync-local get_agent iter_agents stamp 10 7 cache 0 (codes "56:r:5")
      (codes "activity_score") score_local score_cached

no_failures : length (ensure_sync_state none).failed_token_ids ≤ failed_token_ids_cap
unfolding ensure_sync_state
no_failures = omega arith

run_sync-Recorded_example :
    let (report, after, _) = run_sync get_agent iter_agents stamp 10 7 cache 0 in
    let answers = run_outcomes get_agent iter_agents stamp 10 0 in
    (report.upserted ≡ count_stored answers)
    × (report.failed ≡ count_missed answers)
    × ((ensure_sync_state after.state).failed_token_ids
        ≡ newest ((ensure_sync_state none).failed_token_ids ++ recorded answers))
run_sync-Recorded_example = run_sync-Recorded get_agent iter_agents stamp 10 7 cache 0 no_failures

-- Of two failures in a row the first is lost.
abbrev two_missing : ℕ → List Listed × ℕ
two_missing w = (listed 6 ∷ listed 7 ∷ [], w)

one_lost :
    (ensure_sync_state (run_sync get_agent two_missing stamp 10 7 cache 0).1.state).failed_token_ids
    ≡ 7 ∷ []
unfolding run_sync ensure_sync_state discover_bsc_token_ids enrich_and_upsert enrich_one failure
    record_token_failure newest flushed is_other_chain
one_lost = refl

sync_runs : (run_sync get_agent iter_agents stamp 10 7 cache 0).0.failed ≡ 1
unfolding run_sync
sync_runs = refl

-- Each list names Alice twice, in two spellings.
abbrev lists : Text → ℕ → Result Json × ℕ
lists url w = (ok (arr (cons (str alice) (cons (str (codes " " ++ alice)) nil))), w + 1)

refresh-IsMirror_example : IsMirror (refresh_flagged_addresses lists 9 [] 0).rows
refresh-IsMirror_example = refresh-IsMirror lists 9 [] 0 (λ s. tt)

abbrev sale : AgentEvent
sale = record {
  agent_id = codes "97:1";
  tx_hash = codes "0x1";
  from_address = bob;
  to_address = alice;
  timestamp = 8640000000000;
}

abbrev seller : ProbedAgent
seller = record {
  agent_id = codes "97:1";
  token_id = 1;
  services = obj (field (codes "a2a") (obj (field (codes "endpoint") (str (codes "u")) end)) end);
  created_at = none;
  health_status = none;
  health_score = none;
  health_checked_at = none;
  endpoint_last_checked_at = none;
  activity_score = none;
}

abbrev probe_store : ProbeStore
probe_store = record { agents = seller ∷ []; probes = []; events = sale ∷ [] }

abbrev card : ℕ → ℕ → TermixProbe × ℕ
card token_id w = (
  record {
    responded = true;
    http_status = some 200;
    latency_ms = some 100;
    status = none;
    presence = none;
    skills_count = none;
    error_text = none;
  },
  w + 1,
)

abbrev any_order : Text → Text → Bool
any_order a b = true

seller_found : find_agent_row (codes "97:1") probe_store.agents ≡ some seller
unfolding find_agent_row text_eq
seller_found = refl

seller_raises : track_pillar probe_store seller 8640000000001 ≡ err zero_division
unfolding track_pillar
seller_raises = active_today_raises none [] [] sale (codes "97:1") 8640000000001 refl (omega arith)

seller_selected : selected (codes "97:1") (select_probeable any_order 5 probe_store.agents) ≡ true
unfolding select_probeable text_eq
seller_selected = refl

probe_cycle_starved_example :
    (e : Error) × ((probe_cycle (λ n. []) card any_order 5 8640000000001 probe_store 0).0 ≡ err e)
    × ((probe_cycle (λ n. []) card any_order 5 8640000000001 probe_store 0).1 ≡ probe_store)
probe_cycle_starved_example =
    probe_cycle_starved (λ n. []) card 8640000000001 any_order 5 probe_store 0 (codes "97:1")
      (seller, seller_found, (zero_division, seller_raises)) seller_selected
