-- ===== src/Auth/Table.antt =====
-- A table with a text as its primary key: reading a row by key, and SQLAlchemy's `merge`, which
-- replaces the row of a key or adds one.
use bnb_agent_marketplace.Base.{
  Text, text_eq, text_eq_iff, Bool-cases, ◌≡◌, inl, inr, Option, none, some, List, [], ◌∷◌,
  if◌then◌else◌, arith,
}

unfoldable pub find_by {ℓ} : {V : Type ℓ} → (V → Text) → Text → List V → Option V
find_by key k [] = none
find_by key k (v ∷ l) = if text_eq (key v) k then some v else find_by key k l

unfoldable pub merge_by {ℓ} : {V : Type ℓ} → (V → Text) → V → List V → List V
merge_by key v [] = v ∷ []
merge_by key v (x ∷ l) = if text_eq (key x) (key v) then v ∷ l else x ∷ merge_by key v l

module _ {ℓ} {V : Type ℓ} (key : V → Text) where
  pub find_by-merge_self :
      (v : V) (l : List V) {k : Text} → key v ≡ k → find_by key k (merge_by key v l) ≡ some v
  unfolding find_by merge_by
  find_by-merge_self v [] {k} e = ground (arith, text_eq_iff (key v) k)
  find_by-merge_self v (x ∷ l) {k} e = elim (Bool-cases (text_eq (key x) (key v))) [
    | inl here ↦ rw (here, merge_by) (ground (arith, text_eq_iff (key v) k))
    | inr there ↦ rw (there, merge_by) (ground (arith, find_by-merge_self v l {k = k} e))
  ]

  pub find_by-key : (k : Text) (l : List V) {v : V} → find_by key k l ≡ some v → key v ≡ k
  unfolding find_by
  find_by-key k [] e = absurd (cc)
  find_by-key k (x ∷ l) {v} e = ground (arith, text_eq_iff (key x) k, find_by-key k l {v = v})
