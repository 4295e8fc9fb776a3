-- ===== src/Indexer/Keyed.antt =====
-- No two indexed transfers with one key, under the writes.
use bnb_agent_marketplace.Errors.{ok, Result-cases}
use bnb_agent_marketplace.Base.{
  arith, Bool-cases, All, Text, ℕ, ◌+◌, ◌≡◌, sym, ◌∙◌, inl, inr, Option, List, [], ◌∷◌, ◌++◌,
  All-append, subst, false,
}
use bnb_agent_marketplace.Indexer.Scan.{Log}
use bnb_agent_marketplace.Indexer.Store.{
  store_transfers, same_key, taken, insert_transfer, transfer_of, OnchainTransfer,
}
use bnb_agent_marketplace.Indexer.Again.{store_transfers-step, store_transfers-raised}

-- No two rows have the same transaction, sender and receiver.
abbrev pub IsKeyed : List OnchainTransfer → Type 0
IsKeyed [] = Unit
IsKeyed (t ∷ table) = All (λ u. same_key t u ≡ false) table × IsKeyed table

untaken-All :
    (row t : OnchainTransfer) (table : List OnchainTransfer)
    → taken row (t ∷ table) ≡ false
    → (same_key t row ≡ false) × (taken row table ≡ false)
unfolding taken
untaken-All row t table h = ground arith

IsKeyed-append :
    (row : OnchainTransfer) (table : List OnchainTransfer)
    → taken row table ≡ false
    → IsKeyed table
    → IsKeyed (table ++ row ∷ [])
IsKeyed-append row [] free k = (tt, tt)
IsKeyed-append row (t ∷ table) free (distinct, k) =
    let (other, rest) = untaken-All row t table free in
    (
      All-append (λ u. same_key t u ≡ false) table (row ∷ []) distinct (other, tt),
      IsKeyed-append row table rest k,
    )

insert_transfer-IsKeyed :
    (row : OnchainTransfer) (table : List OnchainTransfer)
    → IsKeyed table
    → IsKeyed (insert_transfer row table)
unfolding insert_transfer
insert_transfer-IsKeyed row table k = elim (Bool-cases (taken row table)) [
  | inl e ↦ rw e k
  | inr e ↦ rw e (IsKeyed-append row table e k)
]

pub store_transfers-IsKeyed :
    (digit : ℕ → Option ℕ) (ts_resolver : ℕ → ℕ) (wallets : List (Text × Text)) (logs : List Log)
    (table : List OnchainTransfer) (n : ℕ) {after : List OnchainTransfer × ℕ}
    → store_transfers digit ts_resolver wallets logs (table, n) ≡ ok after
    → IsKeyed table
    → IsKeyed after.0
store_transfers-IsKeyed digit ts_resolver wallets [] table n {after} e k =
    let same : table ≡ after.0 = unfold store_transfers in ground (arith, e) in subst IsKeyed same k
store_transfers-IsKeyed digit ts_resolver wallets (log ∷ logs) table n e k =
    elim (Result-cases (transfer_of digit ts_resolver wallets log)) [
      | inl (row, fine) ↦
          store_transfers-IsKeyed digit ts_resolver wallets logs (insert_transfer row table) (n + 1)
            (sym (store_transfers-step digit ts_resolver wallets log logs table n row fine) ∙ e)
            (insert_transfer-IsKeyed row table k)
      | inr (raised, bad) ↦
          let stop = store_transfers-raised digit ts_resolver wallets log logs table n raised bad in
          absurd (cc)
    ]
