-- ===== src/Indexer/Scan.antt =====
-- `get_logs`, `scan_u_transfers` and `scan_agent_nft_events` of app/services/onchain_indexer.py: the
-- requests for logs, batch by batch. The pauses between two requests are left out.
use bnb_agent_marketplace.Base.{
  Text, codes, ltb, leb, min, ℕ, zero, suc, ◌+◌, ◌-◌, true, false, Option, none, some, List, [],
  ◌∷◌, ◌++◌, if◌then◌else◌,
}

-- One entry of the list that `eth_getLogs` gives.
pub record Log : Type 0 where
  pub topics : List Text
  pub payload : Text
  pub block_number : Text
  pub transaction_hash : Text

-- The parameters of `eth_getLogs`.
pub record LogQuery : Type 0 where
  pub address : Text
  pub topics : List (Option Text)
  pub from_block : ℕ
  pub to_block : ℕ

-- A request for logs: the answer's list, or `none` where there is no answer or no list in it. Each
-- request may change the world.
abbrev pub LogsCall : Type 0 → Type 0
LogsCall W = LogQuery → W → Option (List Log) × W

abbrev pub u_token_mainnet : Text
u_token_mainnet = codes "0xcE24439F2D9C6a2289F741120FE202248B666666"

abbrev pub identity_registry : Text
identity_registry = codes "0x8004A169FB4a3325136EB29fA0ceB6D2e539a432"

abbrev pub transfer_topic : Text
transfer_topic = codes "0xddf252ad1be2c89b69c2b068fc378daa952ba7f163c4a11628f55a4df523b3ef"

abbrev pub alchemy_max_block_range : ℕ
alchemy_max_block_range = 10

abbrev pub chainstack_max_block_range : ℕ
chainstack_max_block_range = 100

-- `[TRANSFER_TOPIC, None, None]`
abbrev pub transfer_topics : List (Option Text)
transfer_topics = some transfer_topic ∷ none ∷ none ∷ []

-- `[TRANSFER_TOPIC, None, None, None]`
abbrev pub event_topics : List (Option Text)
event_topics = some transfer_topic ∷ none ∷ none ∷ none ∷ []

-- `to_block`, cap_range to the provider's range.
unfoldable pub cap_range : ℕ → ℕ → ℕ → ℕ
cap_range max_range from_block to_block =
    if ltb (max_range - 1) (to_block - from_block) then from_block + max_range - 1 else to_block

-- `batch_end`
unfoldable pub batch_end : ℕ → ℕ → ℕ → ℕ
batch_end max_range current to_block = min (current + max_range - 1) to_block

abbrev pub or_empty : Option (List Log) → List Log
or_empty none = []
or_empty (some logs) = logs

module _ {W : Type 0} (call : LogsCall W) where
  unfoldable pub get_logs : ℕ → ℕ → Text → List (Option Text) → ℕ → W → List Log × W
  unfolding cap_range
  get_logs from_block to_block address topics max_range w =
      let answer =
        call
          (record {
            address = address;
            topics = topics;
            from_block = from_block;
            to_block = cap_range max_range from_block to_block;
          })
          w in
      (or_empty answer.0, answer.1)

-- Where a loop over the blocks stands.
pub record Progress (W : Type 0) : Type 0 where
  pub logs : List Log
  pub current : ℕ
  pub world : W

-- The loop `while current <= to_block` of both scans, on fuel.
module _ {W : Type 0} (call : LogsCall W) (address : Text) (topics : List (Option Text)) where
  unfoldable pub scan_from : ℕ → ℕ → ℕ → ℕ → W → Progress W
  unfolding get_logs batch_end
  scan_from max_range zero current to_block w = record { logs = []; current = current; world = w }
  scan_from max_range (suc fuel) current to_block w = elim (leb current to_block) [
    | false ↦ record { logs = []; current = current; world = w }
    | true ↦
        let end = batch_end max_range current to_block in
        let batch = get_logs call current end address topics max_range w in
        let rest = scan_from max_range fuel (end + 1) to_block batch.1 in
        record { logs = batch.0 ++ rest.logs; current = rest.current; world = rest.world }
  ]

-- The fuel: one round for each block.
abbrev pub scan_fuel : ℕ → ℕ → ℕ
scan_fuel from_block to_block = suc to_block - from_block

module _ {W : Type 0} (call : LogsCall W) where
  unfoldable pub scan_u_transfers : ℕ → ℕ → Text → ℕ → W → Progress W
  unfolding scan_from
  scan_u_transfers from_block to_block token_address max_range =
      scan_from call token_address transfer_topics max_range (scan_fuel from_block to_block)
        from_block to_block

  unfoldable pub scan_agent_nft_events : ℕ → ℕ → ℕ → W → Progress W
  unfolding scan_from
  scan_agent_nft_events from_block to_block max_range =
      scan_from call identity_registry event_topics max_range (scan_fuel from_block to_block)
        from_block to_block
