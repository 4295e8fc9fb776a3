-- ===== src/Indexer/Rounds.antt =====
-- The rounds of the scan for logs.
use bnb_agent_marketplace.Base.{
  Text, leb, Bool-cases, arith, ◌≡◌, refl, ℕ, zero, suc, ◌+◌, ◌<◌, true, false, Option, List, [],
  ◌++◌, inl, inr,
}
use bnb_agent_marketplace.Indexer.Scan.{
  LogsCall, Progress, cap_range, batch_end, get_logs, scan_from,
}

module _ {W : Type 0} (call : LogsCall W) (address : Text) (topics : List (Option Text)) where
  pub scan-over :
      (r fuel current to_block : ℕ) (w : W)
      → leb current to_block ≡ false
      → scan_from call address topics r fuel current to_block w
        ≡ record { logs = []; current = current; world = w }
  unfolding scan_from
  scan-over r zero current to_block w over = refl
  scan-over r (suc fuel) current to_block w over = rw (scan_from, over) refl

  -- One round of the loop.
  abbrev pub after : ℕ → ℕ → ℕ → ℕ → W → Progress W
  after r fuel current to_block w =
      let end = batch_end r current to_block in
      scan_from call address topics r fuel (end + 1) to_block
        (get_logs call current end address topics r w).1

  pub scan-step :
      (r fuel current to_block : ℕ) (w : W)
      → leb current to_block ≡ true
      → scan_from call address topics r (suc fuel) current to_block w ≡ record {
        logs =
            (get_logs call current (batch_end r current to_block) address topics r w).0
            ++ (after r fuel current to_block w).logs;
        current = (after r fuel current to_block w).current;
        world = (after r fuel current to_block w).world;
      }
  unfolding scan_from
  scan-step r fuel current to_block w going = rw (scan_from, going) refl

  pub scan_from-ends :
      (r fuel current to_block : ℕ) (w : W)
      → 0 < r
      → to_block < current + fuel
      → to_block < (scan_from call address topics r fuel current to_block w).current
  scan_from-ends r zero current to_block w some_range enough =
      rw (scan-over r zero current to_block w (ground (arith, enough))) ground (arith, enough)
  scan_from-ends r (suc fuel) current to_block w some_range enough =
      elim (Bool-cases (leb current to_block)) [
        | inl going ↦ rw (scan-step r fuel current to_block w going) (
            scan_from-ends r fuel (batch_end r current to_block + 1) to_block
              (get_logs call current (batch_end r current to_block) address topics r w).1 some_range
              (unfold batch_end in ground (arith, enough, some_range)))
        | inr over ↦ rw (scan-over r (suc fuel) current to_block w over) ground arith
      ]

pub cap_range-batch :
    (r current to_block : ℕ)
    → 0 < r
    → leb current to_block ≡ true
    → cap_range r current (batch_end r current to_block) ≡ batch_end r current to_block
unfolding cap_range batch_end
cap_range-batch r current to_block some_range going = ground (arith, some_range, going)
