-- ===== src/Indexer/Times.antt =====
-- The times that the resolver gives.
use native.Mathlib.Decide.{dec_lt}
use bnb_agent_marketplace.Base.{arith, ℕ, zero, suc, ◌*◌, ◌≤◌, ◌<◌, ◌-◌, max, ◌≡◌, some}
use bnb_agent_marketplace.Indexer.Timestamps.{IsNearest, distance, resolve, edges}

scale : (s a b : ℕ) → a ≤ b → s * a ≤ s * b
scale zero a b h = omega arith
scale (suc s) a b h = omega (arith, h, scale s a b h)

-- The nearest number to a part of `d` is at most `d`.
nearest-most :
    (nearest : ℕ → ℕ → ℕ → ℕ) (k d span : ℕ)
    → IsNearest nearest
    → 0 < span
    → k ≤ span
    → nearest k d span ≤ d
nearest-most nearest k d span round some_span part = elim (dec_lt d (nearest k d span)) [
  | yes more ↦ absurd (
      omega (
        arith,
        (round k d span some_span).0,
        scale span (suc d) (nearest k d span) more,
        scale d k span part,
        some_span,
      ))
  | no less ↦ omega (arith, less)
]

nearest-none :
    (nearest : ℕ → ℕ → ℕ → ℕ) (d span : ℕ) → IsNearest nearest → 0 < span → nearest 0 d span ≡ 0
nearest-none nearest d span round some_span = elim (dec_lt 0 (nearest 0 d span)) [
  | yes more ↦
      absurd (
        omega
          (arith, (round 0 d span some_span).0, scale span 1 (nearest 0 d span) more, some_span))
  | no less ↦ omega (arith, less)
]

nearest-all :
    (nearest : ℕ → ℕ → ℕ → ℕ) (d span : ℕ) → IsNearest nearest → 0 < span → nearest span d span ≡ d
nearest-all nearest d span round some_span = elim (dec_lt (nearest span d span) d) [
  | yes less ↦ absurd (
      omega (
        arith,
        (round span d span some_span).1,
        scale span (suc (nearest span d span)) d less,
        some_span,
      ))
  | no more ↦ omega (arith, more, nearest-most nearest span d span round some_span (omega arith))
]

-- Where the second edge is not before the first, each block of the range gets a time between the
-- edges' times.
pub edges-between :
    (nearest : ℕ → ℕ → ℕ → ℕ) (now from_block to_block t u block : ℕ)
    → IsNearest nearest
    → from_block ≤ block
    → block ≤ to_block
    → t ≤ u
    → (t * 1000000 ≤ edges nearest now from_block to_block (some t) (some u) block)
      × (edges nearest now from_block to_block (some t) (some u) block ≤ u * 1000000)
edges-between nearest now from_block to_block t u block round low high order =
    let part : nearest (block - from_block) (u - t) (max (to_block - from_block) 1) ≤ u - t =
      nearest-most nearest (block - from_block) (u - t) (max (to_block - from_block) 1) round
        (omega arith) (omega arith) in
    unfold edges in unfold resolve in unfold distance in ground (arith, part)

-- The edges of a range of several blocks get their own times.
pub edges_exact :
    (nearest : ℕ → ℕ → ℕ → ℕ) (now from_block to_block t u : ℕ)
    → IsNearest nearest
    → from_block < to_block
    → t ≤ u
    → (edges nearest now from_block to_block (some t) (some u) from_block ≡ t * 1000000)
      × (edges nearest now from_block to_block (some t) (some u) to_block ≡ u * 1000000)
edges_exact nearest now from_block to_block t u round several order =
    let start : nearest 0 (u - t) (max (to_block - from_block) 1) ≡ 0 =
      nearest-none nearest (u - t) (max (to_block - from_block) 1) round (omega arith) in
    let end : nearest (to_block - from_block) (u - t) (max (to_block - from_block) 1) ≡ u - t =
      let size : max (to_block - from_block) 1 ≡ to_block - from_block = omega arith in
      rw size (nearest-all nearest (u - t) (to_block - from_block) round (omega arith)) in
    let same : from_block - from_block ≡ 0 = omega arith in
    unfold edges in
    unfold resolve in unfold distance in (ground (arith, start, same), ground (arith, end))
