-- ===== src/Indexer/Keys.antt =====
-- The keys of the indexed transfers, under both workers.
use bnb_agent_marketplace.Errors.{Result-cases}
use bnb_agent_marketplace.Base.{arith, Text, ℕ, sym, ◌∙◌, inl, inr, Option, List}
use bnb_agent_marketplace.Indexer.Scan.{
  LogsCall, identity_registry, alchemy_max_block_range, transfer_topics, event_topics, scan_from,
  scan_fuel, scan_u_transfers, scan_agent_nft_events,
}
use bnb_agent_marketplace.Indexer.Store.{Index, store_transfers, store_events, OnchainTransfer}
use bnb_agent_marketplace.Indexer.Timestamps.{TsGetter, make_ts_resolver}
use bnb_agent_marketplace.Indexer.Chunks.{
  scan_and_store, finish_scan, store_from, finish_direct, scan_and_store_direct,
}
use bnb_agent_marketplace.Indexer.Agree.{store_from-scan, transfers-IsFold}
use bnb_agent_marketplace.Indexer.Keyed.{IsKeyed, store_transfers-IsKeyed}

module _ {W : Type 0} (call : LogsCall W) (digit : ℕ → Option ℕ) (nearest : ℕ → ℕ → ℕ → ℕ) where
  -- The index after any sequence of chunks of the two workers, with whatever times, wallets and
  -- worlds they meet.
  pub data Reaches : Index → Index → Type 0 where
    start : (db : Index) → Reaches db db
    realtime_chunk :
        (now : ℕ) (get_ts : TsGetter W) (wallets : List (Text × Text)) (from_block to_block : ℕ)
        (u_token : Text) (max_range : ℕ) (w : W) {a b : Index}
        → Reaches a b
        → Reaches a
            (scan_and_store call digit nearest now get_ts wallets from_block to_block u_token
              max_range b w).index
    backfill_chunk :
        (now : ℕ) (get_ts : TsGetter W) (wallets : List (Text × Text)) (from_block to_block : ℕ)
        (u_token : Text) (w : W) {a b : Index}
        → Reaches a b
        → Reaches a
            (scan_and_store_direct call digit nearest now get_ts wallets from_block to_block u_token
              b w).index

  module _ (now : ℕ) (get_ts : TsGetter W) (wallets : List (Text × Text)) where
    finish_scan-transfers :
        (ts_resolver : ℕ → ℕ) (from_block to_block r : ℕ) (db : Index)
        (stored : List OnchainTransfer × ℕ) (w : W)
        → IsKeyed db.transfers
        → IsKeyed stored.0
        → IsKeyed
            (finish_scan call digit nearest now get_ts wallets ts_resolver from_block to_block r db
              stored w).index.transfers
    unfolding finish_scan
    finish_scan-transfers ts_resolver from_block to_block r db stored w k l =
        let scan = scan_agent_nft_events call from_block to_block r w in
        elim (Result-cases (store_events digit ts_resolver scan.logs (db.events, 0))) [
          | inl (u, e) ↦ rw (finish_scan, e) l
          | inr (raised, e) ↦ rw (finish_scan, e) k
        ]

    finish_direct-transfers :
        (ts_resolver : ℕ → ℕ) (from_block to_block : ℕ) (db : Index)
        (stored : List OnchainTransfer × ℕ) (w : W)
        → IsKeyed stored.0
        → IsKeyed
            (finish_direct call digit nearest now get_ts wallets ts_resolver from_block to_block db
              stored w).index.transfers
    unfolding finish_direct
    finish_direct-transfers ts_resolver from_block to_block db stored w l =
        let scan =
          store_from call (store_events digit ts_resolver) identity_registry event_topics
            alchemy_max_block_range (scan_fuel from_block to_block) from_block to_block w
            (db.events, 0) in
        elim (Result-cases scan.0) [
          | inl (u, e) ↦ rw (finish_direct, e) l
          | inr (raised, e) ↦ rw (finish_direct, e) l
        ]

    scan_and_store-IsKeyed :
        (from_block to_block : ℕ) (u_token : Text) (r : ℕ) (db : Index) (w : W)
        → IsKeyed db.transfers
        → IsKeyed
            (scan_and_store call digit nearest now get_ts wallets from_block to_block u_token r db
              w).index.transfers
    unfolding scan_and_store
    scan_and_store-IsKeyed from_block to_block u_token r db w k =
        let resolver = make_ts_resolver nearest now get_ts from_block to_block w in
        let scan = scan_u_transfers call from_block to_block u_token r resolver.1 in
        elim (Result-cases (store_transfers digit resolver.0 wallets scan.logs (db.transfers, 0))) [
          | inl (u, e) ↦
              rw (scan_and_store, e)
                (finish_scan-transfers resolver.0 from_block to_block r db u scan.world k
                  (store_transfers-IsKeyed digit resolver.0 wallets scan.logs db.transfers 0 e k))
          | inr (raised, e) ↦ rw (scan_and_store, e) k
        ]

    scan_and_store_direct-IsKeyed :
        (from_block to_block : ℕ) (u_token : Text) (db : Index) (w : W)
        → IsKeyed db.transfers
        → IsKeyed
            (scan_and_store_direct call digit nearest now get_ts wallets from_block to_block u_token
              db w).index.transfers
    unfolding scan_and_store_direct
    scan_and_store_direct-IsKeyed from_block to_block u_token db w k =
        let resolver = make_ts_resolver nearest now get_ts from_block to_block w in
        let logs =
          (scan_from call u_token transfer_topics alchemy_max_block_range
            (scan_fuel from_block to_block) from_block to_block resolver.1).logs in
        let scan =
          store_from call (store_transfers digit resolver.0 wallets) u_token transfer_topics
            alchemy_max_block_range (scan_fuel from_block to_block) from_block to_block resolver.1
            (db.transfers, 0) in
        let agree =
          store_from-scan call (store_transfers digit resolver.0 wallets) u_token transfer_topics
            (transfers-IsFold digit resolver.0 wallets) alchemy_max_block_range
            (scan_fuel from_block to_block) from_block to_block resolver.1 (db.transfers, 0)
            (omega arith) in
        elim (Result-cases scan.0) [
          | inl (u, e) ↦
              rw (scan_and_store_direct, e)
                (finish_direct-transfers resolver.0 from_block to_block db u scan.1 (
                  store_transfers-IsKeyed digit resolver.0 wallets logs db.transfers 0
                    (sym agree.0 ∙ e) k))
          | inr (raised, e) ↦ rw (scan_and_store_direct, e) k
        ]

  -- However the chunks of the two workers follow each other, no two indexed transfers have the same
  -- transaction, sender and receiver, if none had at the start.
  pub Reaches-IsKeyed : {a b : Index} → Reaches a b → IsKeyed a.transfers → IsKeyed b.transfers
  Reaches-IsKeyed (Reaches.start db) k = k
  Reaches-IsKeyed
        (Reaches.realtime_chunk now get_ts wallets from_block to_block u_token r w {a} {b} before)
        k =
      scan_and_store-IsKeyed now get_ts wallets from_block to_block u_token r b w
        (Reaches-IsKeyed before k)
  Reaches-IsKeyed
        (Reaches.backfill_chunk now get_ts wallets from_block to_block u_token w {a} {b} before) k =
      scan_and_store_direct-IsKeyed now get_ts wallets from_block to_block u_token b w
        (Reaches-IsKeyed before k)
