-- ===== src/Examples/Classing.antt =====
-- The client of two providers, the categories, the compliance flags and the wallets of agents.
use bnb_agent_marketplace.Base.{
  true, All, Text, codes, ℕ, ◌+◌, ◌≤◌, ◌≡◌, refl, true, none, some, List, [], ◌∷◌, map,
}
use bnb_agent_marketplace.Json.{str}
use bnb_agent_marketplace.Rpc.{
  Provider, chainstack, alchemy, MultiRpcClient, RpcReply, result, failed, new_client, rpc_call,
}
use bnb_agent_marketplace.Categories.{tag_category}
use bnb_agent_marketplace.Categories.Hints.{tag_hints, other, marketing_content}
use bnb_agent_marketplace.Categories.Shadowed.{live_hints, shadowed_hints}
use bnb_agent_marketplace.Categories.Reclassify.{CachedAgent, reclassify_cached_agents}
use bnb_agent_marketplace.Categories.Settled.{settled, sum_counts, reclassify-settles}
use bnb_agent_marketplace.Compliance.{
  penalty_of, OwnedAgent, ComplianceStore, postgresql, refresh_agent_compliance_flags, flag_of,
  flagged_data_stale,
}
use bnb_agent_marketplace.Compliance.Keyed.{flag_at}
use bnb_agent_marketplace.Compliance.Refreshed.{put_all, penalised, sum_buckets, refresh-writes}
use bnb_agent_marketplace.Indexer.Store.{OnchainTransfer}
use bnb_agent_marketplace.Score.Wallet.{compute_pillar, wallet_rows, query_wallet}
use bnb_agent_marketplace.Score.WalletBounds.{today_scores_less, senders-count_once}
use bnb_agent_marketplace.Examples.World.{alice, bob}

-- The world is the time; Chainstack fails, Alchemy answers 7.
abbrev post : Provider → Text → ℕ → RpcReply ℕ × ℕ
post chainstack method w = (failed, w + 1)
post alchemy method w = (result 7, w + 1)

abbrev client : MultiRpcClient
client = new_client (codes "k") (codes "k")

call_runs : (rpc_call (λ w. w) post (codes "eth_getLogs") client 5).answer ≡ some 7
unfolding rpc_call new_client
call_runs = refl

-- By its tags an agent for project management does marketing.
project_management :
    tag_category tag_hints (str (codes "Project Management") ∷ []) ≡ some marketing_content
unfolding tag_category
project_management = refl

shadowed_hints_example :
    tag_category tag_hints (str (codes "Project Management") ∷ [])
    ≡ tag_category live_hints (str (codes "Project Management") ∷ [])
shadowed_hints_example = shadowed_hints (str (codes "Project Management") ∷ [])

abbrev listed : CachedAgent
listed = record {
  agent_id = codes "56:1";
  raw_metadata = none;
  tags = str (codes "Project Management") ∷ [];
  supported_protocols = [];
  x402_supported = true;
  description = none;
  category = other;
}

reclassify-settles_example :
    ((reclassify_cached_agents (listed ∷ [])).1 ≡ settled listed ∷ [])
    × (sum_counts (reclassify_cached_agents (listed ∷ [])).0.by_category ≡ 1)
    × ((reclassify_cached_agents (reclassify_cached_agents (listed ∷ [])).1).0.updated ≡ 0)
reclassify-settles_example = reclassify-settles (listed ∷ []) (tt, tt)

abbrev owned : OwnedAgent
owned = record {
  agent_id = codes "56:1";
  creator_address = some alice;
  owner_address = some bob;
  compliance_penalty = 0;
}

abbrev compliance : ComplianceStore
compliance = record {
  flagged = record { address = alice; source = codes "ofac"; updated_at = 5 } ∷ [];
  agents = owned ∷ [];
  flags = [];
}

refresh-writes_example :
    ((λ aid. flag_at aid (refresh_agent_compliance_flags postgresql 9 compliance).1.flags)
      ≡ put_all
          (map
            (flag_of compliance.flagged (flagged_data_stale compliance.flagged 9) 9)
            (owned ∷ []))
          (λ aid. none))
    × ((flag_at (codes "56:1") (refresh_agent_compliance_flags postgresql 9 compliance).1.flags
          ≡ some (flag_of compliance.flagged (flagged_data_stale compliance.flagged 9) 9 owned))
        × Unit {0})
    × ((refresh_agent_compliance_flags postgresql 9 compliance).1.agents
        ≡ penalised compliance.flagged owned ∷ [])
    × (sum_buckets (refresh_agent_compliance_flags postgresql 9 compliance).0.penalty_distribution
        ≡ 1)
refresh-writes_example = refresh-writes postgresql 9 compliance (tt, tt)

penalty_runs : penalised compliance.flagged owned ≡ record owned { compliance_penalty = 30 }
unfolding penalty_of
penalty_runs = refl

today_scores_less_example : compute_pillar 30 10 (some 1) ≡ compute_pillar 30 10 (some 0) + 2000
today_scores_less_example = today_scores_less 30 10

pillar_runs : compute_pillar 30 10 (some 0) ≡ 8000
unfolding compute_pillar
pillar_runs = refl

abbrev sent : Text → Text → OnchainTransfer
sent to tx = record {
  from_address = bob;
  to_address = to;
  value = 1;
  block_number = 1;
  timestamp = 10;
  tx_hash = tx;
  linked_agent_id = none;
}

abbrev sent_table : List OnchainTransfer
sent_table = sent (codes "0x1") (codes "0xa") ∷ sent (codes "0x2") (codes "0xb") ∷ []

sent_by_bob : All (λ t. t.from_address ≡ bob) (wallet_rows bob 0 sent_table)
unfolding wallet_rows
sent_by_bob = (refl, (refl, tt))

senders-count_once_example : (query_wallet bob 0 20 sent_table).counterparties ≤ 1
senders-count_once_example = senders-count_once bob bob 0 20 sent_table sent_by_bob

events_run : (query_wallet bob 0 20 sent_table).events ≡ 2
unfolding query_wallet
events_run = refl
