-- ===== src/Indexer/Store.antt =====
-- `resolve_wallet_to_agent` and `_scan_and_store` of app/services/onchain_indexer.py, with the tables of
-- app/db/models/onchain_index.py. The value of a transfer stays the raw amount: the source divides
-- it by 10^18.
use bnb_agent_marketplace.Payment.Types.{zero_address}
use bnb_agent_marketplace.Indexer.Address.{canon_addr, extract_addr, quantity}
use bnb_agent_marketplace.Indexer.Scan.{Log, identity_registry}
use bnb_agent_marketplace.Payment.Validators.Decimal.{decimal}
use bnb_agent_marketplace.Errors.{◌>>=◌, index_error, Result, ok, err}
use bnb_agent_marketplace.Base.{
  if◌then◌else◌, Text, codes, text_eq, ℕ, zero, suc, ◌+◌, Bool, false, ◌&&◌, ◌||◌, Option, none,
  some, List, [], ◌∷◌, ◌++◌,
}

-- The columns of `onchain_transfers` that are written; the transfer's type is always `erc20_u`.
pub record OnchainTransfer : Type 0 where
  pub from_address : Text
  pub to_address : Text
  pub value : ℕ
  pub block_number : ℕ
  pub timestamp : ℕ
  pub tx_hash : Text
  pub linked_agent_id : Option Text

pub data EventType : Type 0 where
  mint transfer : EventType

pub record OnchainAgentEvent : Type 0 where
  pub agent_id : Text
  pub token_id : ℕ
  pub event_type : EventType
  pub from_address : Text
  pub to_address : Text
  pub block_number : ℕ
  pub timestamp : ℕ
  pub tx_hash : Text

pub record Index : Type 0 where
  pub transfers : List OnchainTransfer
  pub events : List OnchainAgentEvent

-- A dict from texts: the entry that was set last is found first.
unfoldable pub agent_at : Text → List (Text × Text) → Option Text
agent_at k [] = none
agent_at k ((j, v) ∷ m) = if text_eq j k then some v else agent_at k m

unfoldable pub add_wallet : Option Text → Text → List (Text × Text) → List (Text × Text)
add_wallet none agent_id out = out
add_wallet (some canon) agent_id out = (canon, agent_id) ∷ out

unfoldable pub resolve_rows : List (Option Text × Text) → List (Text × Text) → List (Text × Text)
unfolding add_wallet canon_addr
resolve_rows [] out = out
resolve_rows ((wallet, agent_id) ∷ rows) out =
    resolve_rows rows (add_wallet (canon_addr wallet) agent_id out)

-- The rows are `agent_wallet` and `agent_id` of `agent_cache`; a missing wallet has no canonical
-- form, so the query's filter is the same as its drop here.
unfoldable pub resolve_wallet_to_agent : List (Option Text × Text) → List (Text × Text)
unfolding resolve_rows
resolve_wallet_to_agent rows = resolve_rows rows []

-- `wallet_to_agent.get(_canon_addr(to_addr))`
unfoldable pub linked_agent : List (Text × Text) → Text → Option Text
unfolding agent_at canon_addr
linked_agent wallets to_addr = elim (canon_addr (some to_addr)) [
  | none ↦ none
  | some canon ↦ agent_at canon wallets
]

-- `log["topics"][n]`
unfoldable pub topic_at : ℕ → List Text → Result Text
topic_at n [] = err index_error
topic_at zero (t ∷ _) = ok t
topic_at (suc n) (_ ∷ ts) = topic_at n ts

-- The unique constraint `uq_transfer_tx`.
unfoldable pub same_key : OnchainTransfer → OnchainTransfer → Bool
unfolding text_eq
same_key a b =
    text_eq a.tx_hash b.tx_hash
    && text_eq a.from_address b.from_address
    && text_eq a.to_address b.to_address

unfoldable pub taken : OnchainTransfer → List OnchainTransfer → Bool
unfolding same_key
taken row [] = false
taken row (t ∷ table) = same_key t row || taken row table

-- An insert with ON CONFLICT DO NOTHING.
unfoldable pub insert_transfer : OnchainTransfer → List OnchainTransfer → List OnchainTransfer
unfolding taken
insert_transfer row table = if taken row table then table else table ++ row ∷ []

-- `build_agent_id` for BSC mainnet and its registry.
unfoldable pub build_agent_id : ℕ → Text
unfolding decimal
build_agent_id token_id = codes "56:" ++ identity_registry ++ codes ":" ++ decimal token_id

module _ (digit : ℕ → Option ℕ) (ts_resolver : ℕ → ℕ) where
  -- The row of one $U log.
  unfoldable pub transfer_of : List (Text × Text) → Log → Result OnchainTransfer
  unfolding topic_at extract_addr quantity linked_agent
  transfer_of wallets log = do
    from_topic ← topic_at 1 log.topics
    to_topic ← topic_at 2 log.topics
    value ← quantity digit log.payload
    block_num ← quantity digit log.block_number
    ok (record {
      from_address = extract_addr from_topic;
      to_address = extract_addr to_topic;
      value = value;
      block_number = block_num;
      timestamp = ts_resolver block_num;
      tx_hash = log.transaction_hash;
      linked_agent_id = linked_agent wallets (extract_addr to_topic);
    })

  -- The row of one log of the registry.
  unfoldable pub event_of : Log → Result OnchainAgentEvent
  unfolding topic_at extract_addr quantity build_agent_id text_eq
  event_of log = do
    from_topic ← topic_at 1 log.topics
    to_topic ← topic_at 2 log.topics
    id_topic ← topic_at 3 log.topics
    token_id ← quantity digit id_topic
    block_num ← quantity digit log.block_number
    ok (record {
      agent_id = build_agent_id token_id;
      token_id = token_id;
      event_type = if text_eq (extract_addr from_topic) zero_address then mint else transfer;
      from_address = extract_addr from_topic;
      to_address = extract_addr to_topic;
      block_number = block_num;
      timestamp = ts_resolver block_num;
      tx_hash = log.transaction_hash;
    })

  -- `for log in u_logs`, over the table: how many logs were handled is counted beside it.
  unfoldable pub store_transfers :
      List (Text × Text) → List Log → List OnchainTransfer × ℕ → Result (List OnchainTransfer × ℕ)
  unfolding transfer_of insert_transfer
  store_transfers wallets [] (table, n) = ok (table, n)
  store_transfers wallets (log ∷ logs) (table, n) = do
    row ← transfer_of wallets log
    store_transfers wallets logs (insert_transfer row table, n + 1)

  -- `for log in nft_logs`. `onchain_agent_events` has no unique constraint but its key, which the
  -- database gives, so no insert conflicts.
  unfoldable pub store_events :
      List Log → List OnchainAgentEvent × ℕ → Result (List OnchainAgentEvent × ℕ)
  unfolding event_of
  store_events [] (table, n) = ok (table, n)
  store_events (log ∷ logs) (table, n) = do
    row ← event_of log
    store_events logs (table ++ row ∷ [], n + 1)
