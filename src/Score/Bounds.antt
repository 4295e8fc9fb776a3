-- ===== src/Score/Bounds.antt =====
-- The range and the order of the scores.
use bnb_agent_marketplace.Errors.{Result-cases, ok}
use bnb_agent_marketplace.Base.{
  ap, Bool-cases, ℕ, zero, suc, ◌<◌, ◌≤◌, ◌+◌, ◌*◌, ◌/◌, ◌%◌, ◌≡◌, refl, inl, inr, ltb, leb, min,
  max, Option, none, some, arith,
}
use native.Mathlib.Omega.{div_any}
use native.Mathlib.Nat.{div-lt_iff_lt-mul, mul_comm}
use bnb_agent_marketplace.Score.{
  capped_or_neutral, month_micros, round_div, latency_band_points, Probe, TrackParts, TrackRecord,
  probe_parts, capped, recency_points, track_parts, compute_probe_pillar,
  compute_track_record_pillar, composite_score,
}

-- The composite of two pillars lies between them.
pub composite_score-between :
    (probe track : ℕ)
    → (min probe track ≤ composite_score (some probe) (some track))
      × (composite_score (some probe) (some track) ≤ max probe track)
unfolding composite_score round_div
composite_score-between probe track = (ground arith, ground arith)

-- A better pillar never lowers the composite.
pub composite_score_mono :
    (p p' t t' : ℕ)
    → p ≤ p'
    → t ≤ t'
    → composite_score (some p) (some t) ≤ composite_score (some p') (some t')
unfolding composite_score round_div
composite_score_mono p p' t t' hp ht = ground arith

-- A lower latency never earns fewer points.
pub latency-antitone :
    (l l' : ℕ) → l ≤ l' → latency_band_points (some l') ≤ latency_band_points (some l)
unfolding latency_band_points
latency-antitone l l' h = ground arith

pub round_div-bound : (a b k : ℕ) → a ≤ k * b → 0 < b → round_div a b ≤ k
unfolding round_div
round_div-bound a b k h pos =
    let whole : b * (a / b) + a % b ≡ a = div_any a b in
    let few : a / b < k + 1 = (div-lt_iff_lt-mul pos).1 (ground (arith, mul_comm k b)) in
    elim (Bool-cases (ltb (a / b) k)) [
      | inl below ↦ ground arith
      | inr top ↦
          let same : a / b ≡ k = ground arith in
          let rest : a % b ≡ 0 = ground (arith, mul_comm k b, whole, ap (λ q. b * q) same) in
          ground arith
    ]

latency-bound : (l : Option ℕ) → latency_band_points l ≤ 100
unfolding latency_band_points
latency-bound none = omega arith
latency-bound (some l) = ground arith

-- A probed agent's pillar is a score out of 100.
pub probe_pillar-bound : (p : Probe) {n : ℕ} → compute_probe_pillar p ≡ some n → n ≤ 100
unfolding compute_probe_pillar probe_parts round_div
probe_pillar-bound p {n} e =
    elim p.responded as (λ r. p.responded ≡ r → n ≤ 100) [
      | none ↦ λ h. absurd (ground arith)
      | some b ↦ λ h. ground (arith, latency-bound p.latency_ms)
    ]
      refl

capped-bound : (n cap : ℕ) → 0 < cap → capped n cap ≤ 100
unfolding capped
capped-bound n cap h = elim (Bool-cases (leb cap n)) [
  | inl e ↦ rw (e, capped) (omega arith)
  | inr e ↦ rw (e, capped) (round_div-bound (100 * n) cap 100 (ground arith) h)
]

age-bound : (a : Option ℕ) → capped_or_neutral a (12 * month_micros) ≤ 100
age-bound none = omega arith
age-bound (some a) = capped-bound a (12 * month_micros) (omega arith)

buyers-bound : (b : Option ℕ) → capped_or_neutral b 10 ≤ 100
buyers-bound none = omega arith
buyers-bound (some b) = capped-bound b 10 (omega arith)

recency-bound : (d : Option ℕ) {n : ℕ} → recency_points d ≡ ok n → n ≤ 100
unfolding recency_points
recency-bound none h = ground arith
recency-bound (some zero) h = absurd (cc)
recency-bound (some (suc d)) h = ground (arith, round_div-bound 3000 (suc d) 100)

parts-bound :
    (t : TrackRecord) {parts : TrackParts}
    → track_parts t ≡ ok parts
    → parts.age + parts.events + parts.buyers + parts.recency ≤ 400
unfolding track_parts
parts-bound t {parts} h =
    elim t.event_count
        as (λ c.
          t.event_count ≡ c → parts.age + parts.events + parts.buyers + parts.recency ≤ 400) [
            | none ↦ λ e. ground arith
            | some c ↦ λ e. elim (Result-cases (recency_points t.recency_days)) [
              | inr (_, e') ↦ ground arith
              | inl (r, e') ↦ ground (
                arith,
                recency-bound t.recency_days e',
                capped-bound c 10,
                age-bound t.age_micros,
                buyers-bound t.unique_buyers,
              )
            ]
          ]
      refl

-- A track-record pillar that is computed is a score out of 100.
pub track_pillar-bound : (t : TrackRecord) {n : ℕ} → compute_track_record_pillar t ≡ ok n → n ≤ 100
track_pillar-bound t {n} h = elim (Result-cases (track_parts t)) [
  | inr (_, e) ↦ absurd (unfold compute_track_record_pillar in ground arith)
  | inl (parts, e) ↦
      let total = parts-bound t e in
      unfold compute_track_record_pillar in
      ground
        (arith, round_div-bound (parts.age + parts.events + parts.buyers + parts.recency) 4 100)
]
