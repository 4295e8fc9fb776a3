-- ===== src/Compliance.antt =====
-- app/services/compliance_refresh.py: the flags and penalties of agents whose wallets are listed, over
-- the columns of app/db/models/agent_compliance.py, flagged_address.py and agent.py that it uses.
-- Times are in microseconds.
pub mod Keyed
pub mod Refreshed
pub mod Mirror
pub mod Mirrored
use bnb_agent_marketplace.Base.{
  ltb, ◌==◌, if◌then◌else◌, length, Text, text_eq, is_empty, lower, strip, ℕ, ◌+◌, ◌-◌, ◌*◌, min,
  max, Bool, true, false, not, ◌&&◌, Option, none, some, List, [], ◌∷◌, ◌++◌, map,
}

pub record FlaggedAddress : Type 0 where
  pub address : Text
  pub source : Text
  pub updated_at : ℕ

pub record OwnedAgent : Type 0 where
  pub agent_id : Text
  pub creator_address : Option Text
  pub owner_address : Option Text
  pub compliance_penalty : ℕ

pub record AgentComplianceFlag : Type 0 where
  pub agent_id : Text
  pub creator_flagged : Bool
  pub creator_flag_sources : List Text
  pub owner_flagged : Bool
  pub owner_flag_sources : List Text
  pub creator_is_owner : Bool
  pub flagged_data_stale : Bool
  pub refreshed_at : ℕ

-- The fields of the report that this phase fills; `last_refreshed_at` as a time.
pub record ComplianceRefreshReport : Type 0 where
  pub agents_matched : ℕ
  pub agents_upserted : ℕ
  pub penalty_distribution : List (ℕ × ℕ)
  pub last_refreshed_at : Option ℕ

abbrev pub penalty_per_flag : ℕ
penalty_per_flag = 30

abbrev pub penalty_cap : ℕ
penalty_cap = 50

-- 24 hours.
abbrev pub stale_threshold : ℕ
stale_threshold = 24 * 3600 * 1000000

-- `int(flag)`
abbrev pub as_int : Bool → ℕ
as_int true = 1
as_int false = 0

unfoldable pub compute_penalty : Bool → Bool → ℕ
compute_penalty creator_flagged owner_flagged =
    min (penalty_per_flag * as_int creator_flagged + penalty_per_flag * as_int owner_flagged)
      penalty_cap

-- `max(flagged_addresses.updated_at)`
unfoldable pub max_updated_at : List FlaggedAddress → Option ℕ
max_updated_at [] = none
max_updated_at (row ∷ rows) = elim (max_updated_at rows) [
  | none ↦ some row.updated_at
  | some t ↦ some (max row.updated_at t)
]

unfoldable pub flagged_data_stale : List FlaggedAddress → ℕ → Bool
unfolding max_updated_at
flagged_data_stale rows now = elim (max_updated_at rows) [
  | none ↦ true
  | some max_ts ↦ ltb stale_threshold (now - max_ts)
]

-- `address_sources.get(addr, [])`; an address is in the dict where this is not empty.
unfoldable pub sources_of : Text → List FlaggedAddress → List Text
unfolding text_eq lower
sources_of addr [] = []
sources_of addr (row ∷ rows) =
    let rest = sources_of addr rows in
    if text_eq (lower row.address) addr then row.source ∷ rest else rest

-- `(address or "").strip().lower()`
unfoldable pub wallet_of : Option Text → Text
unfolding strip lower
wallet_of none = []
wallet_of (some address) = lower (strip address)

abbrev pub has_sources : List Text → Bool
has_sources [] = false
has_sources (_ ∷ _) = true

unfoldable pub is_flagged : Text → List FlaggedAddress → Bool
unfolding sources_of
is_flagged wallet flagged = not (is_empty wallet) && has_sources (sources_of wallet flagged)

-- One entry of `upserts`.
unfoldable pub flag_of : List FlaggedAddress → Bool → ℕ → OwnedAgent → AgentComplianceFlag
unfolding wallet_of is_flagged sources_of text_eq
flag_of flagged stale now agent =
    let creator = wallet_of agent.creator_address in
    let owner = wallet_of agent.owner_address in
    record {
      agent_id = agent.agent_id;
      creator_flagged = is_flagged creator flagged;
      creator_flag_sources = sources_of creator flagged;
      owner_flagged = is_flagged owner flagged;
      owner_flag_sources = sources_of owner flagged;
      creator_is_owner = not (is_empty creator) && text_eq creator owner;
      flagged_data_stale = stale;
      refreshed_at = now;
    }

-- One entry of `penalty_rows`.
unfoldable pub penalty_of : List FlaggedAddress → OwnedAgent → ℕ
unfolding compute_penalty wallet_of is_flagged
penalty_of flagged agent =
    compute_penalty (is_flagged (wallet_of agent.creator_address) flagged)
      (is_flagged (wallet_of agent.owner_address) flagged)

-- `distribution[bucket] = distribution.get(bucket, 0) + 1`
unfoldable pub add_bucket : ℕ → List (ℕ × ℕ) → List (ℕ × ℕ)
add_bucket bucket [] = (bucket, 1) ∷ []
add_bucket bucket ((b, n) ∷ counts) =
    if b == bucket then (b, n + 1) ∷ counts else (b, n) ∷ add_bucket bucket counts

unfoldable pub distribute : List FlaggedAddress → List OwnedAgent → List (ℕ × ℕ) → List (ℕ × ℕ)
unfolding penalty_of add_bucket
distribute flagged [] counts = counts
distribute flagged (agent ∷ agents) counts =
    distribute flagged agents (add_bucket (penalty_of flagged agent) counts)

-- The postgres insert with ON CONFLICT DO UPDATE: a row in place, or a new one.
unfoldable pub upsert_pg : AgentComplianceFlag → List AgentComplianceFlag → List AgentComplianceFlag
unfolding text_eq
upsert_pg row [] = row ∷ []
upsert_pg row (flag ∷ flags) =
    if text_eq flag.agent_id row.agent_id then row ∷ flags else flag ∷ upsert_pg row flags

unfoldable pub delete_flag : Text → List AgentComplianceFlag → List AgentComplianceFlag
unfolding text_eq
delete_flag aid [] = []
delete_flag aid (flag ∷ flags) =
    if text_eq flag.agent_id aid then delete_flag aid flags else flag ∷ delete_flag aid flags

-- The other databases: a delete, then an insert.
unfoldable pub upsert_other :
    AgentComplianceFlag → List AgentComplianceFlag → List AgentComplianceFlag
unfolding delete_flag
upsert_other row flags = delete_flag row.agent_id flags ++ row ∷ []

-- The dialect of the session's database.
pub data Dialect : Type 0 where
  postgresql other_dialect : Dialect

unfoldable pub upsert_flag :
    Dialect → AgentComplianceFlag → List AgentComplianceFlag → List AgentComplianceFlag
unfolding upsert_pg upsert_other
upsert_flag postgresql row flags = upsert_pg row flags
upsert_flag other_dialect row flags = upsert_other row flags

unfoldable pub upsert_all :
    Dialect → List AgentComplianceFlag → List AgentComplianceFlag → List AgentComplianceFlag
unfolding upsert_flag
upsert_all dialect [] flags = flags
upsert_all dialect (row ∷ rows) flags = upsert_all dialect rows (upsert_flag dialect row flags)

-- `UPDATE agent_cache SET compliance_penalty = ... WHERE agent_id = ...`
unfoldable pub set_penalty : Text → ℕ → List OwnedAgent → List OwnedAgent
unfolding text_eq
set_penalty aid penalty [] = []
set_penalty aid penalty (agent ∷ agents) =
    (if text_eq agent.agent_id aid then record agent { compliance_penalty = penalty } else agent)
    ∷ set_penalty aid penalty agents

unfoldable pub set_penalties :
    List FlaggedAddress → List OwnedAgent → List OwnedAgent → List OwnedAgent
unfolding set_penalty penalty_of
set_penalties flagged [] agents = agents
set_penalties flagged (agent ∷ rest) agents =
    set_penalties flagged rest (set_penalty agent.agent_id (penalty_of flagged agent) agents)

pub record ComplianceStore : Type 0 where
  pub flagged : List FlaggedAddress
  pub agents : List OwnedAgent
  pub flags : List AgentComplianceFlag

unfoldable pub refresh_agent_compliance_flags :
    Dialect → ℕ → ComplianceStore → ComplianceRefreshReport × ComplianceStore
unfolding flagged_data_stale flag_of distribute upsert_all set_penalties max_updated_at
refresh_agent_compliance_flags dialect now s =
    let upserts = map (flag_of s.flagged (flagged_data_stale s.flagged now) now) s.agents in
    (
      record {
        agents_matched = length s.agents;
        agents_upserted = length upserts;
        penalty_distribution = distribute s.flagged s.agents ((0, 0) ∷ (30, 0) ∷ (50, 0) ∷ []);
        last_refreshed_at = max_updated_at s.flagged;
      },
      record s {
        agents = set_penalties s.flagged s.agents s.agents;
        flags = upsert_all dialect upserts s.flags;
      },
    )

unfoldable pub status_summary : ComplianceStore → Option ℕ × ℕ
unfolding max_updated_at
status_summary s = (max_updated_at s.flagged, length s.flags)
