-- ===== src/Indexer/Repeats.antt =====
-- Storing events a second time.
use mathlib.Core.List.{append_assoc, append-nil}
use bnb_agent_marketplace.Errors.{ok, Result-cases, Error, err}
use bnb_agent_marketplace.Base.{
  ap, arith, length, ℕ, ◌+◌, ◌≡◌, refl, sym, ◌∙◌, inl, inr, Option, List, [], ◌∷◌, ◌++◌, suc,
}
use bnb_agent_marketplace.Indexer.Scan.{Log}
use bnb_agent_marketplace.Indexer.Store.{store_events, OnchainAgentEvent, event_of}

module _ (digit : ℕ → Option ℕ) (ts_resolver : ℕ → ℕ) where
  store_events-step :
      (log : Log) (logs : List Log) (table : List OnchainAgentEvent) (n : ℕ)
      (row : OnchainAgentEvent)
      → event_of digit ts_resolver log ≡ ok row
      → store_events digit ts_resolver (log ∷ logs) (table, n)
        ≡ store_events digit ts_resolver logs (table ++ row ∷ [], n + 1)
  unfolding store_events
  store_events-step log logs table n row e = rw e refl

  store_events-raised :
      (log : Log) (logs : List Log) (table : List OnchainAgentEvent) (n : ℕ) (e : Error)
      → event_of digit ts_resolver log ≡ err e
      → store_events digit ts_resolver (log ∷ logs) (table, n) ≡ err e
  unfolding store_events
  store_events-raised log logs table n e h = rw h refl

  -- Where the events of a list of logs can be stored, there is one new row for each log, which
  -- every store of these logs appends, whatever is in the table: a range that is scanned twice has
  -- its events twice.
  pub store_events-append :
      (logs : List Log) (table : List OnchainAgentEvent) (n : ℕ)
      {after : List OnchainAgentEvent × ℕ}
      → store_events digit ts_resolver logs (table, n) ≡ ok after
      → (rows : List OnchainAgentEvent) × (length rows ≡ length logs)
        × ((u : List OnchainAgentEvent) (k : ℕ)
            → store_events digit ts_resolver logs (u, k) ≡ ok (u ++ rows, k + length logs))
  store_events-append [] table n e =
      ([], refl, λ u k. unfold store_events in rw (append-nil u) ground arith)
  store_events-append (log ∷ logs) table n e =
      elim (Result-cases (event_of digit ts_resolver log)) [
        | inl (row, fine) ↦
            let rest =
              store_events-append logs (table ++ row ∷ []) (n + 1)
                (sym (store_events-step log logs table n row fine) ∙ e) in
            (
              row ∷ rest.0,
              ap suc rest.1,
              λ u k.
                  let count : k + 1 + length logs ≡ k + suc (length logs) = omega arith in
                  store_events-step log logs u k row fine
                  ∙ rest.2 (u ++ row ∷ []) (k + 1)
                  ∙ rw (append_assoc u (row ∷ []) rest.0, count) refl,
            )
        | inr (raised, bad) ↦
            let stop = store_events-raised log logs table n raised bad in absurd (cc)
      ]
