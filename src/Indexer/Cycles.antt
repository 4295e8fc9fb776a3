-- ===== src/Indexer/Cycles.antt =====
-- `_backfill_window`, `_pick_sample_start`, `_backfill_cycle` and `_realtime_cycle` of
-- app/services/onchain_indexer.py: which blocks a worker scans next. Block numbers stop at 0 here; the
-- chain's head lies far above the windows.
use bnb_agent_marketplace.Base.{
  ltb, leb, ◌==◌, if◌then◌else◌, length, mem?, Text, is_empty, ℕ, zero, suc, ◌+◌, ◌-◌, ◌*◌, min,
  max, true, false, not, ◌&&◌, Option, none, some, List, [], ◌∷◌,
}
use bnb_agent_marketplace.Errors.{err, Result, ok}
use bnb_agent_marketplace.Indexer.Scan.{LogsCall, u_token_mainnet, chainstack_max_block_range}
use bnb_agent_marketplace.Indexer.Timestamps.{TsGetter}
use bnb_agent_marketplace.Indexer.Store.{
  Index, resolve_wallet_to_agent, OnchainTransfer, OnchainAgentEvent,
}
use bnb_agent_marketplace.Indexer.Chunks.{Chunk, scan_and_store, scan_and_store_direct}

abbrev pub u_first_transfer_block : ℕ
u_first_transfer_block = 72122100

abbrev pub backfill_chunk_size : ℕ
backfill_chunk_size = 250

abbrev pub backfill_start_window_blocks : ℕ
backfill_start_window_blocks = 18000000

abbrev pub realtime_chunk_size : ℕ
realtime_chunk_size = 75

unfoldable pub backfill_window : ℕ → Option (ℕ × ℕ)
backfill_window current_block =
    let start = max (current_block - backfill_start_window_blocks) u_first_transfer_block in
    let end = current_block - realtime_chunk_size in
    if ltb end start then none else some (start, end)

-- `random.randint(a, b)`; a draw changes the world.
abbrev pub Randint : Type 0 → Type 0
Randint W = ℕ → ℕ → W → ℕ × W

unfoldable pub draw : {W : Type 0} → Randint W → ℕ → ℕ → List ℕ → ℕ → W → Option ℕ × W
unfolding mem?
draw randint window_start window_end covered zero w = (none, w)
draw randint window_start window_end covered (suc tries) w =
    let block = randint window_start window_end w in
    elim (mem? block.0 covered) [
      | true ↦ draw randint window_start window_end covered tries block.1
      | false ↦ (some block.0, block.1)
    ]

unfoldable pub pick_sample_start : {W : Type 0} → Randint W → ℕ → ℕ → List ℕ → W → Option ℕ × W
unfolding draw
pick_sample_start randint window_start window_end covered w =
    if leb (window_end + 1 - window_start) (length covered)
    then (none, w)
    else draw randint window_start window_end covered 50 w

-- A set of block numbers, as a list without repetitions.
unfoldable pub add_block : ℕ → ℕ → ℕ → List ℕ → List ℕ
unfolding mem?
add_block window_start window_end block covered =
    if leb window_start block && leb block window_end && not (mem? block covered)
    then block ∷ covered
    else covered

unfoldable pub transfer_blocks : ℕ → ℕ → List OnchainTransfer → List ℕ → List ℕ
unfolding add_block
transfer_blocks window_start window_end [] covered = covered
transfer_blocks window_start window_end (row ∷ rows) covered =
    add_block window_start window_end row.block_number
      (transfer_blocks window_start window_end rows covered)

unfoldable pub event_blocks : ℕ → ℕ → List OnchainAgentEvent → List ℕ → List ℕ
unfolding add_block
event_blocks window_start window_end [] covered = covered
event_blocks window_start window_end (row ∷ rows) covered =
    add_block window_start window_end row.block_number
      (event_blocks window_start window_end rows covered)

-- The blocks of the window that have a row of either table.
unfoldable pub covered_blocks : ℕ → ℕ → Index → List ℕ
unfolding transfer_blocks event_blocks
covered_blocks window_start window_end db =
    transfer_blocks window_start window_end db.transfers
      (event_blocks window_start window_end db.events [])

-- `COALESCE(MAX(block_number), 0)`
unfoldable pub last_block : List OnchainTransfer → ℕ
last_block [] = 0
last_block (row ∷ rows) = max row.block_number (last_block rows)

-- The range of a realtime cycle, or `none` where it is caught up.
unfoldable pub realtime_range : ℕ → ℕ → Option (ℕ × ℕ)
realtime_range current_block last =
    let from_block = (if last == 0 then current_block - realtime_chunk_size else last + 1) in
    let start =
      (if ltb (chainstack_max_block_range * 2) (current_block - from_block)
        then current_block - realtime_chunk_size
        else from_block) in
    if leb current_block from_block
    then none
    else some (start, min current_block (start + realtime_chunk_size - 1))

-- The range of a backfill cycle.
unfoldable pub backfill_range : {W : Type 0} → Randint W → ℕ → Index → W → Option (ℕ × ℕ) × W
unfolding backfill_window covered_blocks pick_sample_start
backfill_range randint current_block db w = elim (backfill_window current_block) [
  | none ↦ (none, w)
  | some window ↦
      let pick =
        pick_sample_start randint window.0 window.1 (covered_blocks window.0 window.1 db) w in
      elim pick.0 [
        | none ↦ (none, pick.1)
        | some from_block ↦
            (some (from_block, min (from_block + backfill_chunk_size - 1) window.1), pick.1)
      ]
]

pub data Mode : Type 0 where
  error caught_up backfill realtime : Mode

-- What a cycle answers, the index, the process-wide `_backfill_last_scanned` and the world after it.
pub record Cycle (W : Type 0) : Type 0 where
  pub outcome : Result (Mode × ℕ)
  pub index : Index
  pub last_scanned : ℕ
  pub world : W

module _ {W : Type 0} (head : W → Option ℕ × W) (call : LogsCall W) (digit : ℕ → Option ℕ)
    (nearest : ℕ → ℕ → ℕ → ℕ) (now : ℕ) (get_ts : TsGetter W)
    (agents : List (Option Text × Text)) where
  -- The answer to a scanned range; a cycle that raises leaves the tracker alone.
  unfoldable pub answered : Mode → ℕ → ℕ → ℕ → ℕ → Chunk W → Cycle W
  answered mode scanned last_scanned from_block to_block chunk = elim chunk.outcome [
    | err e ↦ record {
      outcome = err e;
      index = chunk.index;
      last_scanned = last_scanned;
      world = chunk.world;
    }
    | ok _ ↦ record {
      outcome = ok (mode, to_block + 1 - from_block);
      index = chunk.index;
      last_scanned = scanned;
      world = chunk.world;
    }
  ]

  unfoldable pub backfill_cycle : Randint W → Text → Index → ℕ → W → Cycle W
  unfolding backfill_range resolve_wallet_to_agent scan_and_store_direct answered
  backfill_cycle randint alchemy_key db last_scanned w =
      let block = head w in
      let stop : Mode → W → Cycle W = λ mode v. record {
        outcome = ok (mode, 0);
        index = db;
        last_scanned = last_scanned;
        world = v;
      } in
      if is_empty alchemy_key then stop error w else elim block.0 [
        | none ↦ stop error block.1
        | some current_block ↦
            let picked = backfill_range randint current_block db block.1 in
            elim picked.0 [
              | none ↦ stop caught_up picked.1
              | some range ↦ answered backfill range.1 last_scanned range.0 range.1 (
                  scan_and_store_direct call digit nearest now get_ts
                    (resolve_wallet_to_agent agents) range.0 range.1 u_token_mainnet db picked.1)
            ]
      ]

  unfoldable pub realtime_cycle : Index → ℕ → W → Cycle W
  unfolding realtime_range last_block resolve_wallet_to_agent scan_and_store answered
  realtime_cycle db last_scanned w =
      let block = head w in
      let stop : Mode → Cycle W = λ mode. record {
        outcome = ok (mode, 0);
        index = db;
        last_scanned = last_scanned;
        world = block.1;
      } in
      elim block.0 [
        | none ↦ stop error
        | some current_block ↦ elim (realtime_range current_block (last_block db.transfers)) [
          | none ↦ stop caught_up
          | some range ↦ answered realtime last_scanned last_scanned range.0 range.1 (
              scan_and_store call digit nearest now get_ts (resolve_wallet_to_agent agents) range.0
                range.1 u_token_mainnet chainstack_max_block_range db block.1)
        ]
      ]
