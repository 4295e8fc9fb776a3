-- ===== src/Sync/Columns.antt =====
-- The column lists of app/services/sync_worker.py and the mapping of `_row_from_agent`.
use bnb_agent_marketplace.Base.{Text, codes, ℕ, List, [], ◌∷◌}
use bnb_agent_marketplace.Indexer.Scan.{identity_registry}

-- `_SET_EXPRS`
abbrev pub set_exprs : List Text
set_exprs =
    codes "agent_internal_id"
    ∷ codes "chain_id"
    ∷ codes "chain_type"
    ∷ codes "token_id"
    ∷ codes "contract_address"
    ∷ codes "registry_address"
    ∷ codes "is_testnet"
    ∷ codes "owner_id"
    ∷ codes "owner_address"
    ∷ codes "owner_ens"
    ∷ codes "owner_username"
    ∷ codes "owner_avatar_url"
    ∷ codes "owner_publisher_tier"
    ∷ codes "owner_certified_name"
    ∷ codes "creator_address"
    ∷ codes "name"
    ∷ codes "description"
    ∷ codes "agent_type"
    ∷ codes "image_url"
    ∷ codes "agent_wallet"
    ∷ codes "is_verified"
    ∷ codes "star_count"
    ∷ codes "watch_count"
    ∷ codes "tags"
    ∷ codes "categories"
    ∷ codes "services"
    ∷ codes "x402_supported"
    ∷ codes "supported_protocols"
    ∷ codes "supported_trust_models"
    ∷ codes "average_score"
    ∷ codes "total_score"
    ∷ codes "total_feedbacks"
    ∷ codes "total_validations"
    ∷ codes "successful_validations"
    ∷ codes "rank"
    ∷ codes "network_rank"
    ∷ codes "scores"
    ∷ codes "cross_chain_links"
    ∷ codes "cross_chain_versions"
    ∷ codes "created_block_number"
    ∷ codes "created_tx_hash"
    ∷ codes "is_active"
    ∷ codes "is_endpoint_verified"
    ∷ codes "endpoint_verified_at"
    ∷ codes "endpoint_verified_domain"
    ∷ codes "endpoint_verification_error"
    ∷ codes "endpoint_last_checked_at"
    ∷ codes "health_status"
    ∷ codes "health_score"
    ∷ codes "health_checked_at"
    ∷ codes "quality_score"
    ∷ codes "popularity_score"
    ∷ codes "activity_score"
    ∷ codes "wallet_score"
    ∷ codes "freshness_score"
    ∷ codes "metadata_completeness_score"
    ∷ codes "ens"
    ∷ codes "did"
    ∷ codes "mcp_server"
    ∷ codes "mcp_version"
    ∷ codes "a2a_endpoint"
    ∷ codes "a2a_version"
    ∷ codes "agent_url"
    ∷ codes "parse_status"
    ∷ codes "raw_metadata"
    ∷ codes "upstream_created_at"
    ∷ codes "upstream_updated_at"
    ∷ codes "raw"
    ∷ []

-- `_LOCAL_OWNED`
abbrev pub local_owned : List Text
local_owned =
    codes "health_status"
    ∷ codes "health_score"
    ∷ codes "health_checked_at"
    ∷ codes "endpoint_last_checked_at"
    ∷ codes "endpoint_verification_error"
    ∷ codes "endpoint_verified_domain"
    ∷ codes "is_endpoint_verified"
    ∷ codes "endpoint_verified_at"
    ∷ codes "activity_score"
    ∷ codes "scores"
    ∷ []

-- How an attribute becomes a column: as it is, `bool(a)`, `int(a or 0)`, `list(a or [])`,
-- `dict(a or {})`, `int(a) if a is not None else n`, `a or t`.
pub data Conversion : Type 0 where
  plain as_bool or_zero or_list or_dict : Conversion
  or_int : ℕ → Conversion
  or_text : Text → Conversion

pub data Source : Type 0 where
  column_of : Conversion → Text → Source
  constant : Text → Source
  identity : Source

-- The dict that `_row_from_agent` returns.
abbrev pub row_sources : List (Text × Source)
row_sources =
    (codes "agent_id", identity)
    ∷ (codes "agent_internal_id", column_of plain (codes "id"))
    ∷ (codes "chain_id", column_of (or_int 56) (codes "chain_id"))
    ∷ (codes "chain_type", column_of plain (codes "chain_type"))
    ∷ (codes "token_id", column_of (or_int 0) (codes "token_id"))
    ∷ (codes "contract_address", column_of (or_text identity_registry) (codes "contract_address"))
    ∷ (codes "registry_address", constant identity_registry)
    ∷ (codes "is_testnet", column_of as_bool (codes "is_testnet"))
    ∷ (codes "owner_id", column_of plain (codes "owner_id"))
    ∷ (codes "owner_address", column_of plain (codes "owner_address"))
    ∷ (codes "owner_ens", column_of plain (codes "owner_ens"))
    ∷ (codes "owner_username", column_of plain (codes "owner_username"))
    ∷ (codes "owner_avatar_url", column_of plain (codes "owner_avatar_url"))
    ∷ (codes "owner_publisher_tier", column_of plain (codes "owner_publisher_tier"))
    ∷ (codes "owner_certified_name", column_of plain (codes "owner_certified_name"))
    ∷ (codes "creator_address", column_of plain (codes "creator_address"))
    ∷ (codes "name", column_of plain (codes "name"))
    ∷ (codes "description", column_of plain (codes "description"))
    ∷ (codes "agent_type", column_of plain (codes "agent_type"))
    ∷ (codes "image_url", column_of plain (codes "image_url"))
    ∷ (codes "agent_wallet", column_of plain (codes "agent_wallet"))
    ∷ (codes "is_verified", column_of as_bool (codes "is_verified"))
    ∷ (codes "star_count", column_of or_zero (codes "star_count"))
    ∷ (codes "watch_count", column_of or_zero (codes "watch_count"))
    ∷ (codes "tags", column_of or_list (codes "tags"))
    ∷ (codes "categories", column_of or_list (codes "categories"))
    ∷ (codes "services", column_of or_dict (codes "services"))
    ∷ (codes "x402_supported", column_of as_bool (codes "x402_supported"))
    ∷ (codes "supported_protocols", column_of or_list (codes "supported_protocols"))
    ∷ (codes "supported_trust_models", column_of or_list (codes "supported_trust_models"))
    ∷ (codes "average_score", column_of plain (codes "average_score"))
    ∷ (codes "total_score", column_of plain (codes "total_score"))
    ∷ (codes "total_feedbacks", column_of or_zero (codes "total_feedbacks"))
    ∷ (codes "total_validations", column_of or_zero (codes "total_validations"))
    ∷ (codes "successful_validations", column_of or_zero (codes "successful_validations"))
    ∷ (codes "rank", column_of plain (codes "rank"))
    ∷ (codes "network_rank", column_of plain (codes "network_rank"))
    ∷ (codes "scores", column_of plain (codes "scores"))
    ∷ (codes "cross_chain_links", column_of or_list (codes "cross_chain_links"))
    ∷ (codes "cross_chain_versions", column_of or_list (codes "cross_chain_versions"))
    ∷ (codes "created_block_number", column_of plain (codes "created_block_number"))
    ∷ (codes "created_tx_hash", column_of plain (codes "created_tx_hash"))
    ∷ (codes "is_active", column_of as_bool (codes "is_active"))
    ∷ (codes "is_endpoint_verified", column_of as_bool (codes "is_endpoint_verified"))
    ∷ (codes "endpoint_verified_at", column_of plain (codes "endpoint_verified_at"))
    ∷ (codes "endpoint_verified_domain", column_of plain (codes "endpoint_verified_domain"))
    ∷ (codes "endpoint_verification_error", column_of plain (codes "endpoint_verification_error"))
    ∷ (codes "endpoint_last_checked_at", column_of plain (codes "endpoint_last_checked_at"))
    ∷ (codes "health_status", column_of plain (codes "health_status"))
    ∷ (codes "health_score", column_of plain (codes "health_score"))
    ∷ (codes "health_checked_at", column_of plain (codes "health_checked_at"))
    ∷ (codes "quality_score", column_of plain (codes "quality_score"))
    ∷ (codes "popularity_score", column_of plain (codes "popularity_score"))
    ∷ (codes "activity_score", column_of plain (codes "activity_score"))
    ∷ (codes "wallet_score", column_of plain (codes "wallet_score"))
    ∷ (codes "freshness_score", column_of plain (codes "freshness_score"))
    ∷ (codes "metadata_completeness_score", column_of plain (codes "metadata_completeness_score"))
    ∷ (codes "ens", column_of plain (codes "ens"))
    ∷ (codes "did", column_of plain (codes "did"))
    ∷ (codes "mcp_server", column_of plain (codes "mcp_server"))
    ∷ (codes "mcp_version", column_of plain (codes "mcp_version"))
    ∷ (codes "a2a_endpoint", column_of plain (codes "a2a_endpoint"))
    ∷ (codes "a2a_version", column_of plain (codes "a2a_version"))
    ∷ (codes "agent_url", column_of plain (codes "agent_url"))
    ∷ (codes "parse_status", column_of plain (codes "parse_status"))
    ∷ (codes "raw_metadata", column_of plain (codes "raw_metadata"))
    ∷ (codes "upstream_created_at", column_of plain (codes "created_at"))
    ∷ (codes "upstream_updated_at", column_of plain (codes "updated_at"))
    ∷ (codes "raw", column_of or_dict (codes "raw"))
    ∷ []
