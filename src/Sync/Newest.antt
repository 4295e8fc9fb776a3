-- ===== src/Sync/Newest.antt =====
-- The newest entries of a list of failures.
use bnb_agent_marketplace.Base.{
  arith, length, drop, length-append, ℕ, zero, suc, ◌+◌, ◌-◌, ◌≤◌, ◌≡◌, refl, sym, ap, ◌∙◌, List,
  [], ◌∷◌, ◌++◌,
}
use bnb_agent_marketplace.Sync.{newest, failed_token_ids_cap}

drop-append : (k : ℕ) (a b : List ℕ) → k ≤ length a → drop k (a ++ b) ≡ drop k a ++ b
drop-append zero a b h = refl
drop-append (suc k) [] b h = absurd (omega (arith, h))
drop-append (suc k) (x ∷ a) b h = drop-append k a b (omega (arith, h))

drop-drop : (j k n : ℕ) (a : List ℕ) → k + j ≡ n → drop j (drop k a) ≡ drop n a
drop-drop j zero n a e = let same : j ≡ n = omega (arith, e) in rw same refl
drop-drop j (suc k) zero a e = absurd (omega (arith, e))
drop-drop zero (suc k) (suc n) [] e = refl
drop-drop (suc j) (suc k) (suc n) [] e = refl
drop-drop j (suc k) (suc n) (x ∷ a) e = drop-drop j k n a (omega (arith, e))

length-drop : (k : ℕ) (a : List ℕ) → length (drop k a) ≡ length a - k
length-drop zero a = omega arith
length-drop (suc k) [] = omega arith
length-drop (suc k) (x ∷ a) = omega (arith, length-drop k a)

-- Keeping the newest entries of what was kept before keeps the newest of all.
pub newest-append : (a b : List ℕ) → newest (newest a ++ b) ≡ newest (a ++ b)
unfolding newest
newest-append a b =
    let k = length a - failed_token_ids_cap in
    let joined : drop k (a ++ b) ≡ drop k a ++ b = drop-append k a b (omega arith) in
    let size : length (drop k a ++ b) ≡ length a - k + length b =
      length-append (drop k a) b ∙ ap (λ n. n + length b) (length-drop k a) in
    let whole : length (a ++ b) ≡ length a + length b = length-append a b in
    ap (drop (length (drop k a ++ b) - failed_token_ids_cap)) (sym joined)
    ∙ drop-drop (length (drop k a ++ b) - failed_token_ids_cap) k
        (length (a ++ b) - failed_token_ids_cap) (a ++ b) (omega (arith, size, whole))

pub newest-short : (a : List ℕ) → length a ≤ failed_token_ids_cap → newest a ≡ a
unfolding newest
newest-short a h =
    let none_over : length a - failed_token_ids_cap ≡ 0 = omega (arith, h) in rw none_over refl

pub length-newest : (a : List ℕ) → length (newest a) ≤ failed_token_ids_cap
unfolding newest
length-newest a = omega (arith, length-drop (length a - failed_token_ids_cap) a)
