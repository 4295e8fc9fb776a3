-- ===== src/Indexer/Chunks.antt =====
-- `_scan_and_store` and `_scan_and_store_direct` of app/services/onchain_indexer.py: one range of blocks,
-- read from the node and stored. A session that is closed before its commit leaves the index as it
-- was. `get_ts` does not raise here: a time that the node does not give is missing.
use bnb_agent_marketplace.Base.{leb, Text, ℕ, zero, suc, ◌+◌, true, false, Option, none, some, List}
use bnb_agent_marketplace.Errors.{err, Result, ok}
use bnb_agent_marketplace.Indexer.Scan.{
  Log, LogsCall, identity_registry, alchemy_max_block_range, transfer_topics, event_topics,
  batch_end, or_empty, scan_fuel, scan_u_transfers, scan_agent_nft_events,
}
use bnb_agent_marketplace.Indexer.Timestamps.{TsGetter, make_ts_resolver}
use bnb_agent_marketplace.Indexer.Store.{Index, store_transfers, store_events, OnchainTransfer}

-- The counts of transfers and events, or the exception. The count of events is missing where their
-- scan raised within `_scan_and_store_direct`, which goes on.
pub record Chunk (W : Type 0) : Type 0 where
  pub outcome : Result (ℕ × Option ℕ)
  pub index : Index
  pub world : W

module _ {W : Type 0} (call : LogsCall W) (digit : ℕ → Option ℕ) (nearest : ℕ → ℕ → ℕ → ℕ) (now : ℕ)
    (get_ts : TsGetter W) (wallets : List (Text × Text)) where
  -- The events of a range, and the commit.
  unfoldable pub finish_scan : (ℕ → ℕ) → ℕ → ℕ → ℕ → Index → List OnchainTransfer × ℕ → W → Chunk W
  unfolding store_events scan_agent_nft_events
  finish_scan ts_resolver from_block to_block max_range db stored w =
      let scan = scan_agent_nft_events call from_block to_block max_range w in
      elim (store_events digit ts_resolver scan.logs (db.events, 0)) [
        | err e ↦ record { outcome = err e; index = db; world = scan.world }
        | ok (events, n) ↦ record {
          outcome = ok (stored.1, some n);
          index = record { transfers = stored.0; events = events };
          world = scan.world;
        }
      ]

  unfoldable pub scan_and_store : ℕ → ℕ → Text → ℕ → Index → W → Chunk W
  unfolding make_ts_resolver scan_u_transfers store_transfers finish_scan
  scan_and_store from_block to_block u_token max_range db w =
      let resolver = make_ts_resolver nearest now get_ts from_block to_block w in
      let scan = scan_u_transfers call from_block to_block u_token max_range resolver.1 in
      elim (store_transfers digit resolver.0 wallets scan.logs (db.transfers, 0)) [
        | err e ↦ record { outcome = err e; index = db; world = scan.world }
        | ok stored ↦ finish_scan resolver.0 from_block to_block max_range db stored scan.world
      ]

-- A loop over the blocks that stores each batch before it asks for the next, on fuel.
module _ {W T : Type 0} (call : LogsCall W) (store : List Log → T → Result T) (address : Text)
    (topics : List (Option Text)) where
  unfoldable pub store_from : ℕ → ℕ → ℕ → ℕ → W → T → Result T × W
  unfolding batch_end
  store_from max_range zero current to_block w t = (ok t, w)
  store_from max_range (suc fuel) current to_block w t = elim (leb current to_block) [
    | false ↦ (ok t, w)
    | true ↦
        let end = batch_end max_range current to_block in
        let answer =
          call (record { address = address; topics = topics; from_block = current; to_block = end })
            w in
        elim (store (or_empty answer.0) t) [
          | err e ↦ (err e, answer.1)
          | ok stored ↦ store_from max_range fuel (end + 1) to_block answer.1 stored
        ]
  ]

module _ {W : Type 0} (call : LogsCall W) (digit : ℕ → Option ℕ) (nearest : ℕ → ℕ → ℕ → ℕ) (now : ℕ)
    (get_ts : TsGetter W) (wallets : List (Text × Text)) where
  -- The events, best effort, after the transfers were committed.
  unfoldable pub finish_direct : (ℕ → ℕ) → ℕ → ℕ → Index → List OnchainTransfer × ℕ → W → Chunk W
  unfolding store_from store_events
  finish_direct ts_resolver from_block to_block db stored w =
      let scan =
        store_from call (store_events digit ts_resolver) identity_registry event_topics
          alchemy_max_block_range (scan_fuel from_block to_block) from_block to_block w
          (db.events, 0) in
      elim scan.0 [
        | err e ↦ record {
          outcome = ok (stored.1, none);
          index = record { transfers = stored.0; events = db.events };
          world = scan.1;
        }
        | ok (events, n) ↦ record {
          outcome = ok (stored.1, some n);
          index = record { transfers = stored.0; events = events };
          world = scan.1;
        }
      ]

  unfoldable pub scan_and_store_direct : ℕ → ℕ → Text → Index → W → Chunk W
  unfolding make_ts_resolver store_from store_transfers finish_direct
  scan_and_store_direct from_block to_block u_token db w =
      let resolver = make_ts_resolver nearest now get_ts from_block to_block w in
      let scan =
        store_from call (store_transfers digit resolver.0 wallets) u_token transfer_topics
          alchemy_max_block_range (scan_fuel from_block to_block) from_block to_block resolver.1
          (db.transfers, 0) in
      elim scan.0 [
        | err e ↦ record { outcome = err e; index = db; world = scan.1 }
        | ok stored ↦ finish_direct resolver.0 from_block to_block db stored scan.1
      ]
