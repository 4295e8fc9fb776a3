-- ===== src/Indexer/Windows.antt =====
-- The ranges that the workers scan.
use bnb_agent_marketplace.Indexer.Store.{Index, OnchainTransfer, OnchainAgentEvent}
use bnb_agent_marketplace.Base.{
  Bool-cases, mem?, some_eq, ℕ, zero, suc, ◌≤◌, ◌≡◌, subst, inl, inr, false, some, List, leb,
  Option-cases, length, All, ◌+◌, ◌-◌, ◌<◌, min, ◌≢◌, none, [], ◌∷◌, arith, ◌⊎◌,
}
use bnb_agent_marketplace.Indexer.Cycles.{
  Randint, draw, u_first_transfer_block, backfill_chunk_size, backfill_start_window_blocks,
  realtime_chunk_size, backfill_window, pick_sample_start, add_block, transfer_blocks, event_blocks,
  covered_blocks, realtime_range, backfill_range,
}

-- `random.randint` gives a number within its bounds.
abbrev pub IsRandint : {W : Type 0} → Randint W → Type 0
IsRandint {W} randint =
    (a b : ℕ) (w : W) → a ≤ b → (a ≤ (randint a b w).0) × ((randint a b w).0 ≤ b)

draw-uncovered :
    {W : Type 0} (randint : Randint W) (a b : ℕ) (covered : List ℕ) (tries : ℕ) (w : W) {block : ℕ}
    → IsRandint randint
    → a ≤ b
    → (draw randint a b covered tries w).0 ≡ some block
    → (a ≤ block) × (block ≤ b) × (mem? block covered ≡ false)
unfolding draw
draw-uncovered randint a b covered zero w fair order e = absurd (cc)
draw-uncovered randint a b covered (suc tries) w {block} fair order e =
    elim (Bool-cases (mem? (randint a b w).0 covered)) [
      | inl hit ↦
          draw-uncovered randint a b covered tries (randint a b w).1 fair order
            (rw (draw, hit) at e)
      | inr miss ↦
          let same : (randint a b w).0 ≡ block = some_eq (rw (draw, miss) at e) in
          subst (λ n. (a ≤ n) × (n ≤ b) × (mem? n covered ≡ false)) same
            ((fair a b w order).0, (fair a b w order).1, miss)
    ]

pick_sample_start-uncovered :
    {W : Type 0} (randint : Randint W) (a b : ℕ) (covered : List ℕ) (w : W) {block : ℕ}
    → IsRandint randint
    → a ≤ b
    → (pick_sample_start randint a b covered w).0 ≡ some block
    → (a ≤ block) × (block ≤ b) × (mem? block covered ≡ false)
pick_sample_start-uncovered randint a b covered w fair order e =
    elim (Bool-cases (leb (b + 1 - a) (length covered))) [
      | inl full ↦ absurd (unfold pick_sample_start in ground (arith, full, e))
      | inr room ↦
          draw-uncovered randint a b covered 50 w fair order
            (unfold pick_sample_start in ground (arith, room, e))
    ]

add_block-fresh :
    (s e block : ℕ) (covered : List ℕ) (n : ℕ)
    → s ≤ n
    → n ≤ e
    → mem? n (add_block s e block covered) ≡ false
    → (block ≢ n) × (mem? n covered ≡ false)
unfolding add_block mem?
add_block-fresh s e block covered n low high h = (λ eq. ground arith, ground arith)

transfer_blocks-fresh :
    (s e : ℕ) (rows : List OnchainTransfer) (covered : List ℕ) (n : ℕ)
    → s ≤ n
    → n ≤ e
    → mem? n (transfer_blocks s e rows covered) ≡ false
    → All (λ row. row.block_number ≢ n) rows × (mem? n covered ≡ false)
unfolding add_block transfer_blocks
transfer_blocks-fresh s e [] covered n low high h = (tt, h)
transfer_blocks-fresh s e (row ∷ rows) covered n low high h =
    let (other, rest) =
      add_block-fresh s e row.block_number (transfer_blocks s e rows covered) n low high h in
    let (others, more) = transfer_blocks-fresh s e rows covered n low high rest in
    ((other, others), more)

event_blocks-fresh :
    (s e : ℕ) (rows : List OnchainAgentEvent) (covered : List ℕ) (n : ℕ)
    → s ≤ n
    → n ≤ e
    → mem? n (event_blocks s e rows covered) ≡ false
    → All (λ row. row.block_number ≢ n) rows × (mem? n covered ≡ false)
unfolding add_block event_blocks
event_blocks-fresh s e [] covered n low high h = (tt, h)
event_blocks-fresh s e (row ∷ rows) covered n low high h =
    let (other, rest) =
      add_block-fresh s e row.block_number (event_blocks s e rows covered) n low high h in
    let (others, more) = event_blocks-fresh s e rows covered n low high rest in
    ((other, others), more)

-- No row of the index is of this block.
abbrev pub IsNew : ℕ → Index → Type 0
IsNew n db =
    All (λ row. row.block_number ≢ n) db.transfers × All (λ row. row.block_number ≢ n) db.events

backfill_window-bounds :
    (current_block : ℕ) {window : ℕ × ℕ}
    → backfill_window current_block ≡ some window
    → (u_first_transfer_block ≤ window.0)
      × (window.0 ≤ window.1)
      × (window.1 + realtime_chunk_size ≤ current_block)
      × (current_block ≤ window.0 + backfill_start_window_blocks)
unfolding backfill_window
backfill_window-bounds current_block e = ground arith

-- A backfill cycle picks at most 250 blocks, of which the first has no row in the index, no earlier
-- than the first transfer and than 18 million blocks before the head, and keeps 75 blocks away from
-- the head, where random.randint stays within its bounds.
pub backfill_range-within :
    {W : Type 0} (randint : Randint W) (current_block : ℕ) (db : Index) (w : W) {range : ℕ × ℕ}
    → IsRandint randint
    → (backfill_range randint current_block db w).0 ≡ some range
    → (u_first_transfer_block ≤ range.0)
      × (current_block ≤ range.0 + backfill_start_window_blocks)
      × (range.0 ≤ range.1)
      × (range.1 < range.0 + backfill_chunk_size)
      × (range.1 + realtime_chunk_size ≤ current_block)
      × IsNew range.0 db
unfolding transfer_blocks covered_blocks
backfill_range-within randint current_block db w {range} fair e =
    elim (Option-cases (backfill_window current_block)) [
      | inl no_window ↦ absurd (unfold backfill_range in ground (arith, no_window, e))
      | inr (window, known) ↦
          let pick =
            pick_sample_start randint window.0 window.1 (covered_blocks window.0 window.1 db) w in
          elim (Option-cases pick.0) [
            | inl nothing ↦ absurd (unfold backfill_range in ground (arith, known, nothing, e))
            | inr (block, found) ↦
                let bounds = backfill_window-bounds current_block known in
                let inside =
                  pick_sample_start-uncovered randint window.0 window.1
                    (covered_blocks window.0 window.1 db) w fair bounds.1 found in
                let same : (block, min (block + backfill_chunk_size - 1) window.1) ≡ range =
                  some_eq (unfold backfill_range in ground (arith, known, found, e)) in
                let fresh =
                  transfer_blocks-fresh window.0 window.1 db.transfers
                    (event_blocks window.0 window.1 db.events []) block inside.0 inside.1
                    inside.2 in
                let fresh_events =
                  event_blocks-fresh window.0 window.1 db.events [] block inside.0 inside.1
                    fresh.1 in
                subst
                  (λ (r : ℕ × ℕ).
                    (u_first_transfer_block ≤ r.0)
                    × (current_block ≤ r.0 + backfill_start_window_blocks)
                    × (r.0 ≤ r.1)
                    × (r.1 < r.0 + backfill_chunk_size)
                    × (r.1 + realtime_chunk_size ≤ current_block)
                    × IsNew r.0 db)
                  same
                  (
                    omega (arith, bounds, inside),
                    omega (arith, bounds, inside),
                    omega (arith, inside),
                    omega arith,
                    omega (arith, bounds),
                    (fresh.0, fresh_events.0),
                  )
          ]
    ]

-- With a head of at least 75 and some block indexed, a realtime cycle that scans picks between 1 and 75
-- blocks behind the last indexed one and none past the head. It goes on right behind the last
-- indexed block unless that is more than 201 blocks behind the head.
pub realtime_range-within :
    (current_block last : ℕ) {range : ℕ × ℕ}
    → realtime_chunk_size ≤ current_block
    → 0 < last
    → realtime_range current_block last ≡ some range
    → (last < range.0)
      × (range.0 ≤ range.1)
      × (range.1 ≤ current_block)
      × (range.1 < range.0 + realtime_chunk_size)
      × ((range.0 ≡ last + 1) ⊎ (last + 201 < current_block))
unfolding realtime_range
realtime_range-within current_block last high some_last e = ground arith

-- A realtime cycle that rests has at most the head itself left to scan.
pub realtime_range-none :
    (current_block last : ℕ)
    → 0 < last
    → realtime_range current_block last ≡ none
    → current_block ≤ last + 1
unfolding realtime_range
realtime_range-none current_block last some_last e = ground arith
