-- ===== src/Indexer/Again.antt =====
-- Storing logs a second time, as when two ranges overlap.
use bnb_agent_marketplace.Errors.{ok-injective, ◌>>=◌, ok, Result-cases, Error, err, Result}
use bnb_agent_marketplace.Base.{
  ap, arith, Bool-cases, length, All, Text, text_eq_refl, ℕ, ◌+◌, ◌≡◌, refl, sym, ◌∙◌, inl, inr,
  true, ◌||◌, Option, List, [], ◌∷◌, ◌++◌,
}
use bnb_agent_marketplace.Indexer.Address.{quantity, extract_addr}
use bnb_agent_marketplace.Indexer.Scan.{Log}
use bnb_agent_marketplace.Indexer.Store.{
  store_transfers, same_key, taken, insert_transfer, transfer_of, OnchainTransfer, linked_agent,
  topic_at,
}

taken-append :
    (row : OnchainTransfer) (a b : List OnchainTransfer)
    → taken row (a ++ b) ≡ (taken row a || taken row b)
unfolding taken
taken-append row [] b = refl
taken-append row (t ∷ a) b = ground (arith, taken-append row a b)

same_key_refl : (row : OnchainTransfer) → same_key row row ≡ true
unfolding same_key
same_key_refl row =
    rw (text_eq_refl row.tx_hash, text_eq_refl row.from_address, text_eq_refl row.to_address) refl

insert_transfer-taken :
    (row : OnchainTransfer) (table : List OnchainTransfer)
    → taken row (insert_transfer row table) ≡ true
unfolding insert_transfer
insert_transfer-taken row table = elim (Bool-cases (taken row table)) [
  | inl e ↦ rw e e
  | inr e ↦ rw (e, taken-append row table (row ∷ [])) unfold taken in rw (same_key_refl row, e) refl
]

insert_transfer-keeps :
    (row other : OnchainTransfer) (table : List OnchainTransfer)
    → taken row table ≡ true
    → taken row (insert_transfer other table) ≡ true
unfolding insert_transfer
insert_transfer-keeps row other table h = elim (Bool-cases (taken other table)) [
  | inl e ↦ rw e h
  | inr e ↦ rw (e, taken-append row table (other ∷ [])) rw h refl
]

module _ (digit : ℕ → Option ℕ) (ts_resolver : ℕ → ℕ) (wallets : List (Text × Text)) where
  pub store_transfers-step :
      (log : Log) (logs : List Log) (table : List OnchainTransfer) (n : ℕ) (row : OnchainTransfer)
      → transfer_of digit ts_resolver wallets log ≡ ok row
      → store_transfers digit ts_resolver wallets (log ∷ logs) (table, n)
        ≡ store_transfers digit ts_resolver wallets logs (insert_transfer row table, n + 1)
  unfolding store_transfers
  store_transfers-step log logs table n row e = rw e refl

  pub store_transfers-raised :
      (log : Log) (logs : List Log) (table : List OnchainTransfer) (n : ℕ) (e : Error)
      → transfer_of digit ts_resolver wallets log ≡ err e
      → store_transfers digit ts_resolver wallets (log ∷ logs) (table, n) ≡ err e
  unfolding store_transfers
  store_transfers-raised log logs table n e h = rw h refl

  store_transfers-keeps :
      (row : OnchainTransfer) (logs : List Log) (table : List OnchainTransfer) (n : ℕ)
      {after : List OnchainTransfer × ℕ}
      → store_transfers digit ts_resolver wallets logs (table, n) ≡ ok after
      → taken row table ≡ true
      → taken row after.0 ≡ true
  store_transfers-keeps row [] table n e h = unfold store_transfers in ground (arith, e, h)
  store_transfers-keeps row (log ∷ logs) table n e h =
      elim (Result-cases (transfer_of digit ts_resolver wallets log)) [
        | inl (next, fine) ↦
            store_transfers-keeps row logs (insert_transfer next table) (n + 1)
              (sym (store_transfers-step log logs table n next fine) ∙ e)
              (insert_transfer-keeps row next table h)
        | inr (raised, bad) ↦
            let stop = store_transfers-raised log logs table n raised bad in absurd (cc)
      ]

  -- Every log has a row whose key is in the table.
  abbrev pub Indexed : List OnchainTransfer → List Log → Type 0
  Indexed table = All (λ log.
      (row : OnchainTransfer) × (transfer_of digit ts_resolver wallets log ≡ ok row)
      × (taken row table ≡ true))

  store_transfers-Indexed :
      (logs : List Log) (table : List OnchainTransfer) (n : ℕ) {after : List OnchainTransfer × ℕ}
      → store_transfers digit ts_resolver wallets logs (table, n) ≡ ok after
      → Indexed after.0 logs
  store_transfers-Indexed [] table n e = tt
  store_transfers-Indexed (log ∷ logs) table n e =
      elim (Result-cases (transfer_of digit ts_resolver wallets log)) [
        | inl (row, fine) ↦
            let rest = sym (store_transfers-step log logs table n row fine) ∙ e in
            (
              (
                row,
                fine,
                store_transfers-keeps row logs (insert_transfer row table) (n + 1) rest
                    (insert_transfer-taken row table),
              ),
              store_transfers-Indexed logs (insert_transfer row table) (n + 1) rest,
            )
        | inr (raised, bad) ↦
            let stop = store_transfers-raised log logs table n raised bad in absurd (cc)
      ]

  Indexed-store_transfers :
      (logs : List Log) (table : List OnchainTransfer) (n k : ℕ)
      → n + length logs ≡ k
      → Indexed table logs
      → store_transfers digit ts_resolver wallets logs (table, n) ≡ ok (table, k)
  Indexed-store_transfers [] table n k e i = unfold store_transfers in ground (arith, e)
  Indexed-store_transfers (log ∷ logs) table n k e ((row, fine, there), i) =
      let same : insert_transfer row table ≡ table = unfold insert_transfer in rw there refl in
      store_transfers-step log logs table n row fine
      ∙ rw same (Indexed-store_transfers logs table (n + 1) k (omega (arith, e)) i)

-- The row with another resolver and other wallets: the same key.
abbrev relabel : (ℕ → ℕ) → List (Text × Text) → OnchainTransfer → OnchainTransfer
relabel ts_resolver wallets row = record row {
  timestamp = ts_resolver row.block_number;
  linked_agent_id = linked_agent wallets row.to_address;
}

taken-relabel :
    (ts_resolver : ℕ → ℕ) (wallets : List (Text × Text)) (row : OnchainTransfer)
    (table : List OnchainTransfer)
    → taken (relabel ts_resolver wallets row) table ≡ taken row table
unfolding taken same_key
taken-relabel ts_resolver wallets row [] = refl
taken-relabel ts_resolver wallets row (t ∷ table) =
    ground (arith, taken-relabel ts_resolver wallets row table)

-- The row of a log from what was read of it.
abbrev assemble :
    (ℕ → ℕ)
    → List (Text × Text)
    → Text
    → Result Text
    → Result Text
    → Result ℕ
    → Result ℕ
    → Result OnchainTransfer
assemble ts_resolver wallets tx sender receiver amount number = do
  from_topic ← sender
  to_topic ← receiver
  value ← amount
  block_num ← number
  ok (record {
    from_address = extract_addr from_topic;
    to_address = extract_addr to_topic;
    value = value;
    block_number = block_num;
    timestamp = ts_resolver block_num;
    tx_hash = tx;
    linked_agent_id = linked_agent wallets (extract_addr to_topic);
  })

assemble-relabel :
    (first later : ℕ → ℕ) (wallets others : List (Text × Text)) (tx : Text) (a b : Result Text)
    (v k : Result ℕ) {row : OnchainTransfer}
    → assemble first wallets tx a b v k ≡ ok row
    → assemble later others tx a b v k ≡ ok (relabel later others row)
assemble-relabel first later wallets others tx (err _) b v k e = absurd (cc)
assemble-relabel first later wallets others tx (ok _) (err _) v k e = absurd (cc)
assemble-relabel first later wallets others tx (ok _) (ok _) (err _) k e = absurd (cc)
assemble-relabel first later wallets others tx (ok _) (ok _) (ok _) (err _) e = absurd (cc)
assemble-relabel first later wallets others tx (ok _) (ok _) (ok _) (ok _) e =
    ap (λ r. ok (relabel later others r)) (ok-injective e)

module _ (digit : ℕ → Option ℕ) (first later : ℕ → ℕ) (wallets others : List (Text × Text)) where
  transfer_of-relabel :
      (log : Log) {row : OnchainTransfer}
      → transfer_of digit first wallets log ≡ ok row
      → transfer_of digit later others log ≡ ok (relabel later others row)
  unfolding transfer_of
  transfer_of-relabel log e =
      assemble-relabel first later wallets others log.transaction_hash (topic_at 1 log.topics)
        (topic_at 2 log.topics) (quantity digit log.payload) (quantity digit log.block_number) e

  Indexed-again :
      (table : List OnchainTransfer) (logs : List Log)
      → Indexed digit first wallets table logs
      → Indexed digit later others table logs
  Indexed-again table [] i = tt
  Indexed-again table (log ∷ logs) ((row, fine, there), i) = (
    (
      relabel later others row,
      transfer_of-relabel log fine,
      taken-relabel later others row table ∙ there,
    ),
    Indexed-again table logs i,
  )

  -- Once the transfers of a list of logs are stored, storing the same logs again leaves the table
  -- as it is, also with a resolver or wallets that have changed meanwhile, and counts each log as
  -- before.
  pub store_transfers-again :
      (logs : List Log) (table : List OnchainTransfer) {after : List OnchainTransfer × ℕ}
      → store_transfers digit first wallets logs (table, 0) ≡ ok after
      → store_transfers digit later others logs (after.0, 0) ≡ ok (after.0, length logs)
  store_transfers-again logs table {after} e =
      Indexed-store_transfers digit later others logs after.0 0 (length logs) (omega arith)
        (Indexed-again after.0 logs (store_transfers-Indexed digit first wallets logs table 0 e))
