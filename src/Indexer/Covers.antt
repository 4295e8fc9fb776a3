-- ===== src/Indexer/Covers.antt =====
-- The scan for logs reaches the end of its range, and covers it.
use mathlib.Core.List.{append_assoc}
use bnb_agent_marketplace.Indexer.Rounds.{scan-over, scan-step, scan_from-ends, cap_range-batch}
use bnb_agent_marketplace.Base.{
  Text, leb, Bool-cases, arith, ◌≡◌, refl, ℕ, zero, suc, ◌+◌, ◌-◌, ◌≤◌, ◌<◌, true, Option, some,
  List, [], ◌++◌, inl, inr,
}
use bnb_agent_marketplace.Indexer.Scan.{
  Log, LogQuery, LogsCall, batch_end, get_logs, scan_from, scan_fuel, identity_registry,
  transfer_topics, event_topics, scan_u_transfers, scan_agent_nft_events,
}

-- The logs of `n` blocks from `first` on.
abbrev pub blocks : (ℕ → List Log) → ℕ → ℕ → List Log
blocks history first zero = []
blocks history first (suc n) = history first ++ blocks history (first + 1) n

blocks-append :
    (history : ℕ → List Log) (first m n k : ℕ)
    → m + n ≡ k
    → blocks history first k ≡ blocks history first m ++ blocks history (first + m) n
blocks-append history first zero n k e =
    let same : n ≡ k = omega (arith, e) in
    let start : first + 0 ≡ first = omega arith in rw (same, start) refl
blocks-append history first (suc m) n zero e = absurd (omega (arith, e))
blocks-append history first (suc m) n (suc k) e =
    let next : first + 1 + m ≡ first + suc m = omega arith in
    let rest = blocks-append history (first + 1) m n k (omega (arith, e)) in
    rw
      (
        append_assoc (history first) (blocks history (first + 1) m)
            (blocks history (first + suc m) n),
        ← next,
        rest,
      )
      refl

-- A node that answers each query of at most `r` blocks with the logs of those blocks, in order.
abbrev pub IsNode :
    {W : Type 0} → LogsCall W → (Text → List (Option Text) → ℕ → List Log) → ℕ → Type 0
IsNode {W} call history r =
    (q : LogQuery) (w : W)
    → q.to_block < q.from_block + r
    → (call q w).0
      ≡ some (blocks (history q.address q.topics) q.from_block (suc q.to_block - q.from_block))

module _ {W : Type 0} (call : LogsCall W) (address : Text) (topics : List (Option Text)) where
  get_logs-batch :
      (history : Text → List (Option Text) → ℕ → List Log) (r current to_block : ℕ) (w : W)
      → 0 < r
      → IsNode call history r
      → leb current to_block ≡ true
      → (get_logs call current (batch_end r current to_block) address topics r w).0
        ≡ blocks (history address topics) current (suc (batch_end r current to_block) - current)
  unfolding get_logs
  get_logs-batch history r current to_block w some_range node going =
      rw
        (
          cap_range-batch r current to_block some_range going,
          node
              (record {
                address = address;
                topics = topics;
                from_block = current;
                to_block = batch_end r current to_block;
              })
              w (unfold batch_end in ground (arith, some_range, going)),
        )
        refl

  scan_from-blocks :
      (history : Text → List (Option Text) → ℕ → List Log) (r fuel current to_block : ℕ) (w : W)
      → 0 < r
      → IsNode call history r
      → to_block < current + fuel
      → (scan_from call address topics r fuel current to_block w).logs
        ≡ blocks (history address topics) current (suc to_block - current)
  scan_from-blocks history r zero current to_block w some_range node enough =
      let none_left : suc to_block - current ≡ 0 = omega (arith, enough) in
      rw
        (
          scan-over call address topics r zero current to_block w (ground (arith, enough)),
          none_left,
        )
        refl
  scan_from-blocks history r (suc fuel) current to_block w some_range node enough =
      elim (Bool-cases (leb current to_block)) [
        | inl going ↦
            let end = batch_end r current to_block in
            let start : current + (suc end - current) ≡ end + 1 =
              unfold batch_end in ground (arith, going, some_range) in
            let size : (suc end - current) + (suc to_block - (end + 1)) ≡ suc to_block - current =
              unfold batch_end in ground (arith, going, some_range) in
            let rest =
              scan_from-blocks history r fuel (end + 1) to_block
                (get_logs call current end address topics r w).1 some_range node
                (unfold batch_end in ground (arith, enough, some_range)) in
            rw
              (
                scan-step call address topics r fuel current to_block w going,
                blocks-append (history address topics) current (suc end - current)
                    (suc to_block - (end + 1)) (suc to_block - current) size,
                start,
                get_logs-batch history r current to_block w some_range node going,
              )
              (rw rest refl)
        | inr over ↦
            let none_left : suc to_block - current ≡ 0 = ground (arith, over) in
            rw (scan-over call address topics r (suc fuel) current to_block w over, none_left) refl
      ]

  -- What every request of the scan keeps holds of the world after it.
  scan_from-keeps {ℓ} :
      (P : W → Type ℓ) (r fuel current to_block first : ℕ) (w : W)
      → 0 < r
      → first ≤ current
      → ((q : LogQuery) (v : W)
          → first ≤ q.from_block
          → q.from_block ≤ q.to_block
          → q.to_block ≤ to_block
          → q.to_block < q.from_block + r
          → P v
          → P (call q v).1)
      → P w
      → P (scan_from call address topics r fuel current to_block w).world
  scan_from-keeps P r zero current to_block first w some_range low keep p = unfold scan_from in p
  scan_from-keeps P r (suc fuel) current to_block first w some_range low keep p =
      elim (Bool-cases (leb current to_block)) [
        | inl going ↦
            let end = batch_end r current to_block in
            let kept : P (get_logs call current end address topics r w).1 =
              unfold get_logs in
              rw (cap_range-batch r current to_block some_range going) (
                keep
                  (record {
                    address = address;
                    topics = topics;
                    from_block = current;
                    to_block = end;
                  })
                  w low (unfold batch_end in ground (arith, going, some_range))
                  (unfold batch_end in ground (arith, going, some_range))
                  (unfold batch_end in ground (arith, going, some_range)) p) in
            rw (scan-step call address topics r fuel current to_block w going) (
              scan_from-keeps P r fuel (end + 1) to_block first
                (get_logs call current end address topics r w).1 some_range
                (unfold batch_end in ground (arith, going, low, some_range)) keep kept)
        | inr over ↦ rw (scan-over call address topics r (suc fuel) current to_block w over) p
      ]

module _ {W : Type 0} (call : LogsCall W) (from_block to_block r : ℕ) (w : W) where
  -- With a range of at least one block per request, both scans run their loop until it ends by its
  -- test: the block they would go on with lies past the range.
  pub scans_end :
      (token_address : Text)
      → 0 < r
      → (to_block < (scan_u_transfers call from_block to_block token_address r w).current)
        × (to_block < (scan_agent_nft_events call from_block to_block r w).current)
  unfolding scan_u_transfers scan_agent_nft_events
  scans_end token_address some_range = (
    scan_from-ends call token_address transfer_topics r (scan_fuel from_block to_block) from_block
        to_block w some_range (omega arith),
    scan_from-ends call identity_registry event_topics r (scan_fuel from_block to_block) from_block
        to_block w some_range (omega arith),
  )

  -- Where the node answers each query of at most `r` blocks with the logs of its blocks in order,
  -- with `r` at least 1, the scan in batches gives what one query for the whole range would: the
  -- logs of each block once, in order, of the token for the transfers and of the registry for the
  -- events.
  pub scans-blocks :
      (token_address : Text) (history : Text → List (Option Text) → ℕ → List Log)
      → 0 < r
      → IsNode call history r
      → ((scan_u_transfers call from_block to_block token_address r w).logs
          ≡ blocks (history token_address transfer_topics) from_block (suc to_block - from_block))
        × ((scan_agent_nft_events call from_block to_block r w).logs
            ≡ blocks
                (history identity_registry event_topics)
                from_block
                (suc to_block - from_block))
  unfolding scan_u_transfers scan_agent_nft_events
  scans-blocks token_address history some_range node = (
    scan_from-blocks call token_address transfer_topics history r (scan_fuel from_block to_block)
        from_block to_block w some_range node (omega arith),
    scan_from-blocks call identity_registry event_topics history r (scan_fuel from_block to_block)
        from_block to_block w some_range node (omega arith),
  )

  -- With `r` at least 1, whatever each request within the range, of at least one and at most `r`
  -- blocks, keeps true of the world is true after both scans.
  pub scans-keep {ℓ} :
      (P : W → Type ℓ) (token_address : Text)
      → 0 < r
      → ((q : LogQuery) (v : W)
          → from_block ≤ q.from_block
          → q.from_block ≤ q.to_block
          → q.to_block ≤ to_block
          → q.to_block < q.from_block + r
          → P v
          → P (call q v).1)
      → P w
      → P (scan_u_transfers call from_block to_block token_address r w).world
        × P (scan_agent_nft_events call from_block to_block r w).world
  unfolding scan_u_transfers scan_agent_nft_events
  scans-keep P token_address some_range keep p = (
    scan_from-keeps call token_address transfer_topics P r (scan_fuel from_block to_block)
        from_block to_block from_block w some_range (omega arith) keep p,
    scan_from-keeps call identity_registry event_topics P r (scan_fuel from_block to_block)
        from_block to_block from_block w some_range (omega arith) keep p,
  )
