-- ===== src/Examples/Indexing.antt =====
-- The indexer on a small node, and the client of two providers.
use bnb_agent_marketplace.Payment.Types.{zero_address}
use bnb_agent_marketplace.Base.{
  arith, ◌==◌, if◌then◌else◌, length, All, Text, codes, text_eq, ℕ, suc, ◌+◌, ◌-◌, ◌*◌, ◌/◌, ◌≤◌,
  ◌<◌, ◌≡◌, refl, Option, none, some, List, [], ◌∷◌, ◌++◌,
}
use bnb_agent_marketplace.Errors.{ok}
use bnb_agent_marketplace.Indexer.Scan.{
  Log, LogQuery, LogsCall, u_token_mainnet, transfer_topics, event_topics, identity_registry,
  alchemy_max_block_range, transfer_topic, scan_u_transfers, scan_agent_nft_events,
}
use bnb_agent_marketplace.Indexer.Covers.{blocks, IsNode, scans_end, scans-blocks, scans-keep}
use bnb_agent_marketplace.Indexer.Timestamps.{TsGetter}
use bnb_agent_marketplace.Indexer.Store.{
  OnchainTransfer, OnchainAgentEvent, Index, mint, store_transfers, store_events,
}
use bnb_agent_marketplace.Indexer.Again.{store_transfers-again}
use bnb_agent_marketplace.Indexer.Repeats.{store_events-append}
use bnb_agent_marketplace.Indexer.Keyed.{IsKeyed}
use bnb_agent_marketplace.Indexer.Keys.{Reaches, Reaches-IsKeyed}
use bnb_agent_marketplace.Indexer.Chunks.{scan_and_store, scan_and_store_direct}
use bnb_agent_marketplace.Indexer.Agree.{direct-agrees}
use bnb_agent_marketplace.Indexer.Cycles.{
  Randint, backfill_range, realtime_range, u_first_transfer_block, backfill_chunk_size,
  backfill_start_window_blocks, realtime_chunk_size,
}
use bnb_agent_marketplace.Indexer.Windows.{IsNew, backfill_range-within}
use bnb_agent_marketplace.Examples.World.{ascii_digit}

abbrev padded : Text → Text
padded s = codes "0x000000000000000000000000" ++ s

abbrev alice_word : Text
alice_word = codes "aaaaaaaaaaaaaaaaaaaaaaaaaaaaaaaaaaaaaaaa"

abbrev bob_word : Text
bob_word = codes "bbbbbbbbbbbbbbbbbbbbbbbbbbbbbbbbbbbbbbbb"

-- Alice pays Bob in block 107.
abbrev payment : Log
payment = record {
  topics = transfer_topic ∷ padded alice_word ∷ padded bob_word ∷ [];
  payload = codes "0x07";
  block_number = codes "0x6b";
  transaction_hash = codes "0x1";
}

-- An agent is minted for Bob in block 112.
abbrev minting : Log
minting = record {
  topics =
      transfer_topic
      ∷ padded (codes "0000000000000000000000000000000000000000")
      ∷ padded bob_word
      ∷ codes "0x5"
      ∷ [];
  payload = codes "0x";
  block_number = codes "0x70";
  transaction_hash = codes "0x2";
}

abbrev chain : Text → List (Option Text) → ℕ → List Log
chain address topics n =
    if text_eq address u_token_mainnet
    then (if n == 107 then payment ∷ [] else [])
    else (if n == 112 then minting ∷ [] else [])

-- A node that answers for this chain and records the queries.
abbrev node : LogsCall (List LogQuery)
node q asked = (
  some (blocks (chain q.address q.topics) q.from_block (suc q.to_block - q.from_block)),
  q ∷ asked,
)

node-IsNode : IsNode node chain 10
node-IsNode q w h = refl

scans_end_example :
    (125 < (scan_u_transfers node 100 125 u_token_mainnet 10 []).current)
    × (125 < (scan_agent_nft_events node 100 125 10 []).current)
scans_end_example = scans_end node 100 125 10 [] u_token_mainnet (omega arith)

scans-blocks_example :
    ((scan_u_transfers node 100 125 u_token_mainnet 10 []).logs
      ≡ blocks (chain u_token_mainnet transfer_topics) 100 26)
    × ((scan_agent_nft_events node 100 125 10 []).logs
        ≡ blocks (chain identity_registry event_topics) 100 26)
scans-blocks_example =
    scans-blocks node 100 125 10 [] u_token_mainnet chain (omega arith) node-IsNode

-- Whatever was asked lies in the range.
abbrev Asked : List LogQuery → Type 0
Asked = All (λ q. (100 ≤ q.from_block) × (q.to_block ≤ 125))

scans-keep_example :
    Asked (scan_u_transfers node 100 125 u_token_mainnet 10 []).world
    × Asked (scan_agent_nft_events node 100 125 10 []).world
scans-keep_example =
    scans-keep node 100 125 10 [] Asked u_token_mainnet (omega arith)
      (λ q v low order high size asked. ((low, high), asked)) tt

abbrev get_ts : TsGetter (List LogQuery)
get_ts n w = (some (1000 + n), w)

abbrev nearest : ℕ → ℕ → ℕ → ℕ
nearest k d span = k * d / span

abbrev clock : ℕ → ℕ
clock n = n

abbrev agents : List (Option Text × Text)
agents = (some (codes "0x" ++ bob_word), codes "56:1") ∷ (none, codes "56:2") ∷ []

abbrev wallets : List (Text × Text)
wallets = (codes "0x" ++ bob_word, codes "56:1") ∷ []

abbrev payment_row : OnchainTransfer
payment_row = record {
  from_address = codes "0x" ++ alice_word;
  to_address = codes "0x" ++ bob_word;
  value = 7;
  block_number = 107;
  timestamp = 107;
  tx_hash = codes "0x1";
  linked_agent_id = some (codes "56:1");
}

payment_stored :
    store_transfers ascii_digit clock wallets (payment ∷ []) ([], 0) ≡ ok (payment_row ∷ [], 1)
unfolding store_transfers
payment_stored = refl

store_transfers-again_example :
    store_transfers ascii_digit clock [] (payment ∷ []) (payment_row ∷ [], 0)
    ≡ ok (payment_row ∷ [], 1)
store_transfers-again_example =
    store_transfers-again ascii_digit clock clock wallets [] (payment ∷ []) [] payment_stored

abbrev minting_row : OnchainAgentEvent
minting_row = record {
  agent_id = codes "56:0x8004A169FB4a3325136EB29fA0ceB6D2e539a432:5";
  token_id = 5;
  event_type = mint;
  from_address = zero_address;
  to_address = codes "0x" ++ bob_word;
  block_number = 112;
  timestamp = 112;
  tx_hash = codes "0x2";
}

minting_stored : store_events ascii_digit clock (minting ∷ []) ([], 0) ≡ ok (minting_row ∷ [], 1)
unfolding store_events
minting_stored = refl

store_events-append_example :
    (rows : List OnchainAgentEvent) × (length rows ≡ 1)
    × ((u : List OnchainAgentEvent) (k : ℕ)
        → store_events ascii_digit clock (minting ∷ []) (u, k) ≡ ok (u ++ rows, k + 1))
store_events-append_example =
    store_events-append ascii_digit clock (minting ∷ []) [] 0 minting_stored

abbrev empty_index : Index
empty_index = record { transfers = []; events = [] }

chunk_runs :
    (scan_and_store node ascii_digit nearest 0 get_ts wallets 105 115 u_token_mainnet
      alchemy_max_block_range empty_index []).outcome
    ≡ ok (1, some 1)
unfolding scan_and_store
chunk_runs = refl

direct-agrees_example :
    scan_and_store_direct node ascii_digit nearest 0 get_ts wallets 105 115 u_token_mainnet
      empty_index []
    ≡ scan_and_store node ascii_digit nearest 0 get_ts wallets 105 115 u_token_mainnet
        alchemy_max_block_range empty_index []
direct-agrees_example =
    direct-agrees node ascii_digit nearest 0 get_ts wallets 105 115 u_token_mainnet empty_index []
      chunk_runs

Reaches-IsKeyed_example :
    IsKeyed
      (scan_and_store_direct node ascii_digit nearest 0 get_ts wallets 105 115 u_token_mainnet
        empty_index []).index.transfers
Reaches-IsKeyed_example =
    Reaches-IsKeyed node ascii_digit nearest
      (Reaches.backfill_chunk 0 get_ts wallets 105 115 u_token_mainnet []
        (Reaches.start empty_index))
      tt

-- A source of random numbers that draws the lower bound.
abbrev lowest : Randint (List LogQuery)
lowest a b w = (a, w)

backfill_runs : (backfill_range lowest 90000000 empty_index []).0 ≡ some (72122100, 72122349)
unfolding backfill_range
backfill_runs = refl

backfill_range-within_example :
    (u_first_transfer_block ≤ 72122100)
    × (90000000 ≤ 72122100 + backfill_start_window_blocks)
    × (72122100 ≤ 72122349)
    × (72122349 < 72122100 + backfill_chunk_size)
    × (72122349 + realtime_chunk_size ≤ 90000000)
    × IsNew 72122100 empty_index
backfill_range-within_example =
    backfill_range-within lowest 90000000 empty_index [] (λ a b w h. (omega arith, h)) backfill_runs

realtime_runs : realtime_range 1000 900 ≡ some (901, 975)
unfolding realtime_range
realtime_runs = refl
