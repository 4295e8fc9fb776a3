-- ===== src/Hires/Table.antt =====
-- The table of hires: its keys and its paid rows, under the writes of the handlers.
use bnb_agent_marketplace.Base.{
  subst, ◌==◌, All, All-append, Bool-cases, is_some, Text, ℕ, ◌<◌, ◌+◌, ◌≡◌, ◌≢◌, inl, inr, true,
  false, some, arith, List, [], ◌∷◌, ◌++◌, map,
}
use bnb_agent_marketplace.Hires.Types.{HiredAgent, is_paid, Store, find_hire, put_hire}
use bnb_agent_marketplace.Hires.Create.{to_sweep}
use bnb_agent_marketplace.Hires.Rows.{id_of, ids-put_hire, put_hire-All}
use bnb_agent_marketplace.Hires.Sweep.{swept, ids-swept}

-- A row of a store whose next key is `n`: its key was given out, and where it is paid a transaction
-- is recorded.
abbrev pub IsRow : ℕ → HiredAgent → Type 0
IsRow n h = (h.id < n) × (is_paid h.status ≡ true → is_some h.tx_hash ≡ true)

-- No key stands twice.
abbrev pub IsDistinct : List ℕ → Type 0
IsDistinct [] = Unit
IsDistinct (n ∷ l) = All (λ m. n ≢ m) l × IsDistinct l

abbrev pub IsTable : ℕ → List HiredAgent → Type 0
IsTable n l = All (IsRow n) l × IsDistinct (map id_of l)

abbrev pub IsLedger : Store → Type 0
IsLedger s = IsTable s.next_id s.hires

fresh_key :
    (m : ℕ) (l : List HiredAgent) (row : HiredAgent)
    → m < row.id
    → All (λ k. m ≢ k) (map id_of l)
    → All (λ k. m ≢ k) (map id_of (l ++ row ∷ []))
fresh_key m [] row lt a = ((λ e. absurd (omega (arith, e, lt))), tt)
fresh_key m (h ∷ l) row lt (ne, a) = (ne, fresh_key m l row lt a)

IsDistinct-append :
    (n : ℕ) (l : List HiredAgent) (row : HiredAgent)
    → row.id ≡ n
    → IsTable n l
    → IsDistinct (map id_of (l ++ row ∷ []))
IsDistinct-append n [] row key t = (tt, tt)
IsDistinct-append n (h ∷ l) row key (((lt, p), a), (ne, d)) =
    (fresh_key h.id l row (omega (arith, key, lt)) ne, IsDistinct-append n l row key (a, d))

find_hire-All {ℓ} :
    (P : HiredAgent → Type ℓ) (k : ℕ) (l : List HiredAgent) {h : HiredAgent}
    → find_hire k l ≡ some h
    → All P l
    → P h
unfolding find_hire
find_hire-All P k [] e a = absurd (cc)
find_hire-All P k (x ∷ l) {h} e a = elim (Bool-cases (x.id == k)) [
  | inl here ↦ subst P (ground arith) a.0
  | inr there ↦ find_hire-All P k l (ground arith) a.1
]

IsRow-grows : (n : ℕ) (l : List HiredAgent) → All (IsRow n) l → All (IsRow (n + 1)) l
IsRow-grows n [] a = a
IsRow-grows n (h ∷ l) ((lt, p), a) = ((omega arith, p), IsRow-grows n l a)

swept-IsRow :
    (address : Text) (now n : ℕ) (h : HiredAgent) → IsRow n h → IsRow n (swept address now h)
swept-IsRow address now n h (lt, p) = elim (Bool-cases (to_sweep address now h)) [
  | inl e ↦ rw e (lt, λ q. absurd (cc))
  | inr e ↦ rw e (lt, p)
]

swept-All :
    (address : Text) (now n : ℕ) (l : List HiredAgent)
    → All (IsRow n) l
    → All (IsRow n) (map (swept address now) l)
swept-All address now n [] a = a
swept-All address now n (h ∷ l) (p, a) =
    (swept-IsRow address now n h p, swept-All address now n l a)

pub swept-IsTable :
    (address : Text) (now n : ℕ) (l : List HiredAgent)
    → IsTable n l
    → IsTable n (map (swept address now) l)
swept-IsTable address now n l (a, d) = (swept-All address now n l a, rw (ids-swept address now l) d)

-- Writing a row back over one that is known to be a row.
pub put-IsLedger :
    (s : Store) (k : ℕ) (h row : HiredAgent)
    → find_hire k s.hires ≡ some h
    → row.id ≡ h.id
    → (is_paid row.status ≡ true → is_some row.tx_hash ≡ true)
    → IsLedger s
    → IsTable s.next_id (put_hire row s.hires)
put-IsLedger s k h row found same p (l, d) = (
  put_hire-All (IsRow s.next_id) row s.hires
      (rw same (find_hire-All (IsRow s.next_id) k s.hires found l).0, p) l,
  rw (ids-put_hire row s.hires) d,
)

-- A new row at the end.
pub append-IsLedger :
    (n : ℕ) (l : List HiredAgent) (row : HiredAgent)
    → row.id ≡ n
    → is_paid row.status ≡ false
    → IsTable n l
    → IsTable (n + 1) (l ++ row ∷ [])
append-IsLedger n l row key open_row (a, d) = (
  All-append (IsRow (n + 1)) l (row ∷ []) (IsRow-grows n l a)
      ((omega (arith, key), λ p. absurd (cc)), tt),
  IsDistinct-append n l row key (a, d),
)
