-- ===== src/Indexer/Agree.antt =====
-- The two ways to scan and store a range agree.
use bnb_agent_marketplace.Base.{
  Text, ℕ, ◌+◌, ◌≡◌, refl, inl, inr, Option, List, [], ◌∷◌, ◌++◌, leb, Bool-cases, zero, suc, ◌<◌,
  sym, ◌∙◌, arith,
}
use bnb_agent_marketplace.Errors.{◌>>=◌, ok, Result-cases, Result, Error, err}
use bnb_agent_marketplace.Indexer.Scan.{
  Log, LogsCall, scan_from, Progress, batch_end, or_empty, get_logs, LogQuery, identity_registry,
  alchemy_max_block_range, event_topics, scan_fuel, scan_agent_nft_events, transfer_topics,
  scan_u_transfers,
}
use bnb_agent_marketplace.Indexer.Store.{
  store_transfers, insert_transfer, transfer_of, event_of, store_events, OnchainTransfer,
  OnchainAgentEvent, Index,
}
use bnb_agent_marketplace.Indexer.Timestamps.{TsGetter, make_ts_resolver}
use bnb_agent_marketplace.Indexer.Rounds.{cap_range-batch, scan-step, scan-over}
use bnb_agent_marketplace.Indexer.Chunks.{
  store_from, finish_scan, finish_direct, scan_and_store, scan_and_store_direct,
}

-- Logs can be stored in two parts.
abbrev pub IsFold : {T : Type 0} → (List Log → T → Result T) → Type 0
IsFold {T} store =
    ((t : T) → store [] t ≡ ok t)
    × ((a b : List Log) (t : T) → store (a ++ b) t ≡ (store a t >>= store b))

module _ (digit : ℕ → Option ℕ) (ts_resolver : ℕ → ℕ) where
  store_transfers-append :
      (wallets : List (Text × Text)) (a b : List Log) (t : List OnchainTransfer × ℕ)
      → store_transfers digit ts_resolver wallets (a ++ b) t ≡ (
          store_transfers digit ts_resolver wallets a t
          >>= store_transfers digit ts_resolver wallets b)
  unfolding store_transfers
  store_transfers-append wallets [] b (table, n) = refl
  store_transfers-append wallets (log ∷ a) b (table, n) =
      elim (Result-cases (transfer_of digit ts_resolver wallets log)) [
        | inl (row, e) ↦
            rw e (store_transfers-append wallets a b (insert_transfer row table, n + 1))
        | inr (raised, e) ↦ rw e refl
      ]

  store_events-append :
      (a b : List Log) (t : List OnchainAgentEvent × ℕ)
      → store_events digit ts_resolver (a ++ b) t
        ≡ (store_events digit ts_resolver a t >>= store_events digit ts_resolver b)
  unfolding store_events
  store_events-append [] b (table, n) = refl
  store_events-append (log ∷ a) b (table, n) =
      elim (Result-cases (event_of digit ts_resolver log)) [
        | inl (row, e) ↦ rw e (store_events-append a b (table ++ row ∷ [], n + 1))
        | inr (raised, e) ↦ rw e refl
      ]

module _ {W T : Type 0} (call : LogsCall W) (store : List Log → T → Result T) (address : Text)
    (topics : List (Option Text)) (fold : IsFold store) where
  -- Storing batch by batch gives what storing all the logs of the scan gives, and the same world
  -- where that succeeds.
  abbrev pub Agrees : Result T × W → Progress W → T → Type 0
  Agrees s p t = (s.0 ≡ store p.logs t) × ((u : T) → store p.logs t ≡ ok u → s.1 ≡ p.world)

  Agrees-after :
      (s : Result T × W) (batch : List Log) (p : Progress W) (t u : T)
      → store batch t ≡ ok u
      → Agrees s p u
      → Agrees s (record { logs = batch ++ p.logs; current = p.current; world = p.world }) t
  Agrees-after s batch p t u stored (same, worlds) =
      let joined : store (batch ++ p.logs) t ≡ store p.logs u =
        fold.1 batch p.logs t ∙ rw stored refl in
      (same ∙ sym joined, λ v e. worlds v (sym joined ∙ e))

  Agrees-raised :
      (batch : List Log) (p : Progress W) (w : W) (t : T) {e : Error}
      → store batch t ≡ err e
      → Agrees
          (err e, w)
          (record { logs = batch ++ p.logs; current = p.current; world = p.world })
          t
  Agrees-raised batch p w t {e} raised =
      let joined : store (batch ++ p.logs) t ≡ err e = fold.1 batch p.logs t ∙ rw raised refl in
      (sym joined, λ v stored. absurd (cc))

  pub store_from-scan :
      (r fuel current to_block : ℕ) (w : W) (t : T)
      → 0 < r
      → Agrees
          (store_from call store address topics r fuel current to_block w t)
          (scan_from call address topics r fuel current to_block w)
          t
  unfolding store_from batch_end scan_from
  store_from-scan r zero current to_block w t some_range = (sym (fold.0 t), λ u e. refl)
  store_from-scan r (suc fuel) current to_block w t some_range =
      elim (Bool-cases (leb current to_block)) [
        | inl going ↦
            let end = batch_end r current to_block in
            let query : LogQuery = record {
              address = address;
              topics = topics;
              from_block = current;
              to_block = end;
            } in
            let batch : List Log = or_empty (call query w).0 in
            let whole : scan_from call address topics r (suc fuel) current to_block w ≡ record {
              logs =
                  batch
                  ++ (scan_from call address topics r fuel (end + 1) to_block
                      (call query w).1).logs;
              current =
                  (scan_from call address topics r fuel (end + 1) to_block
                    (call query w).1).current;
              world =
                  (scan_from call address topics r fuel (end + 1) to_block (call query w).1).world;
            } =
              scan-step call address topics r fuel current to_block w going
              ∙ unfold get_logs in rw (cap_range-batch r current to_block some_range going) refl in
            elim (Result-cases (store batch t)) [
              | inl (u, e) ↦
                  rw (whole, store_from, going, e)
                    (Agrees-after
                      (store_from call store address topics r fuel (end + 1) to_block
                        (call query w).1 u)
                      batch
                      (scan_from call address topics r fuel (end + 1) to_block (call query w).1) t u
                      e (store_from-scan r fuel (end + 1) to_block (call query w).1 u some_range))
              | inr (raised, e) ↦
                  rw (whole, store_from, going, e)
                    (Agrees-raised batch
                      (scan_from call address topics r fuel (end + 1) to_block (call query w).1)
                      (call query w).1 t e)
            ]
        | inr over ↦
            rw
              (scan-over call address topics r (suc fuel) current to_block w over, store_from, over)
              (sym (fold.0 t), λ u e. refl)
      ]

module _ (digit : ℕ → Option ℕ) (ts_resolver : ℕ → ℕ) where
  pub transfers-IsFold :
      (wallets : List (Text × Text)) → IsFold (store_transfers digit ts_resolver wallets)
  transfers-IsFold wallets =
      (λ t. unfold store_transfers in refl, store_transfers-append digit ts_resolver wallets)

  events-IsFold : IsFold (store_events digit ts_resolver)
  events-IsFold = (λ t. unfold store_events in refl, store_events-append digit ts_resolver)

module _ {W : Type 0} (call : LogsCall W) (digit : ℕ → Option ℕ) (nearest : ℕ → ℕ → ℕ → ℕ) (now : ℕ)
    (get_ts : TsGetter W) (wallets : List (Text × Text)) where
  finish_agrees :
      (ts_resolver : ℕ → ℕ) (from_block to_block : ℕ) (db : Index)
      (stored : List OnchainTransfer × ℕ) (w : W) {counts : ℕ × Option ℕ}
      → (finish_scan call digit nearest now get_ts wallets ts_resolver from_block to_block
          alchemy_max_block_range db stored w).outcome
        ≡ ok counts
      → finish_direct call digit nearest now get_ts wallets ts_resolver from_block to_block db
          stored w
        ≡ finish_scan call digit nearest now get_ts wallets ts_resolver from_block to_block
            alchemy_max_block_range db stored w
  unfolding finish_scan finish_direct scan_agent_nft_events
  finish_agrees ts_resolver from_block to_block db stored w e =
      let scan = scan_agent_nft_events call from_block to_block alchemy_max_block_range w in
      let agree =
        store_from-scan call (store_events digit ts_resolver) identity_registry event_topics
          (events-IsFold digit ts_resolver) alchemy_max_block_range (scan_fuel from_block to_block)
          from_block to_block w (db.events, 0) (omega arith) in
      elim (Result-cases (store_events digit ts_resolver scan.logs (db.events, 0))) [
        | inl (u, fine) ↦ rw (finish_direct, finish_scan, agree.0, fine, agree.1 u fine) refl
        | inr (raised, bad) ↦ absurd (ground (arith, bad, e))
      ]

  -- Whenever `_scan_and_store`, with the provider's range of ten blocks, commits, the scan that
  -- stores batch by batch gives the same counts, the same index and the same world.
  pub direct-agrees :
      (from_block to_block : ℕ) (u_token : Text) (db : Index) (w : W) {counts : ℕ × Option ℕ}
      → (scan_and_store call digit nearest now get_ts wallets from_block to_block u_token
          alchemy_max_block_range db w).outcome
        ≡ ok counts
      → scan_and_store_direct call digit nearest now get_ts wallets from_block to_block u_token db w
        ≡ scan_and_store call digit nearest now get_ts wallets from_block to_block u_token
            alchemy_max_block_range db w
  unfolding scan_and_store scan_and_store_direct scan_u_transfers
  direct-agrees from_block to_block u_token db w {counts} e =
      let resolver = make_ts_resolver nearest now get_ts from_block to_block w in
      let scan =
        scan_u_transfers call from_block to_block u_token alchemy_max_block_range resolver.1 in
      let agree =
        store_from-scan call (store_transfers digit resolver.0 wallets) u_token transfer_topics
          (transfers-IsFold digit resolver.0 wallets) alchemy_max_block_range
          (scan_fuel from_block to_block) from_block to_block resolver.1 (db.transfers, 0)
          (omega arith) in
      elim (Result-cases (store_transfers digit resolver.0 wallets scan.logs (db.transfers, 0))) [
        | inl (u, fine) ↦
            let committed : (finish_scan call digit nearest now get_ts wallets resolver.0 from_block
                  to_block alchemy_max_block_range db u scan.world).outcome
                ≡ ok counts =
              rw (scan_and_store, fine) at e in
            rw (scan_and_store, scan_and_store_direct, agree.0, fine, agree.1 u fine)
              (finish_agrees resolver.0 from_block to_block db u scan.world committed)
        | inr (raised, bad) ↦ absurd (ground (arith, bad, e))
      ]
