-- ===== src/Hires/Rows.antt =====
-- The table of hires under reads and writes of a row.
use bnb_agent_marketplace.Base.{
  ◌==◌, Bool-cases, All, ℕ, ◌≡◌, refl, ◌≢◌, inl, inr, some, List, [], ◌∷◌, arith,
}
use mathlib.Core.List.{map}
use bnb_agent_marketplace.Hires.Types.{HiredAgent, find_hire, put_hire}

abbrev pub id_of : HiredAgent → ℕ
id_of h = h.id

pub id-find_hire :
    (k : ℕ) (l : List HiredAgent) {h : HiredAgent} → find_hire k l ≡ some h → h.id ≡ k
unfolding find_hire
id-find_hire k [] e = absurd (cc)
id-find_hire k (x ∷ l) {h} e = ground (arith, id-find_hire k l {h = h})

pub find_hire-put_self :
    (h : HiredAgent) (l : List HiredAgent) {x : HiredAgent}
    → find_hire h.id l ≡ some x
    → find_hire h.id (put_hire h l) ≡ some h
unfolding find_hire put_hire
find_hire-put_self h [] e = absurd (cc)
find_hire-put_self h (y ∷ l) {x} e = elim (Bool-cases (y.id == h.id)) [
  | inl here ↦ rw (here, put_hire) (ground arith)
  | inr there ↦ rw (there, put_hire) (ground (arith, find_hire-put_self h l {x = x}))
]

pub find_hire-put_ne :
    (k : ℕ) (h : HiredAgent) (l : List HiredAgent)
    → k ≢ h.id
    → find_hire k (put_hire h l) ≡ find_hire k l
unfolding find_hire put_hire
find_hire-put_ne k h [] n = refl
find_hire-put_ne k h (y ∷ l) n = ground (arith, find_hire-put_ne k h l n)

pub ids-put_hire : (h : HiredAgent) (l : List HiredAgent) → map id_of (put_hire h l) ≡ map id_of l
unfolding put_hire
ids-put_hire h [] = refl
ids-put_hire h (y ∷ l) = ground (arith, ids-put_hire h l)

pub put_hire-All {ℓ} :
    (P : HiredAgent → Type ℓ) (h : HiredAgent) (l : List HiredAgent)
    → P h
    → All P l
    → All P (put_hire h l)
unfolding put_hire
put_hire-All P h [] p a = a
put_hire-All P h (y ∷ l) p a = elim (Bool-cases (y.id == h.id)) [
  | inl e ↦ rw (e, All) (p, a.1)
  | inr e ↦ rw (e, All) (a.0, put_hire-All P h l p a.1)
]
