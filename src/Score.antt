-- ===== src/Score.antt =====
-- app/services/agent_score.py: the scores of an agent. The source computes
-- with doubles; the model computes the same rounded quotients exactly. Over the whole range of the
-- inputs but the age, the two agree; an age is a number of microseconds.
pub mod Track
pub mod Bounds
pub mod Total
pub mod Wallet
pub mod WalletBounds
pub mod Worker
pub mod Starved
use bnb_agent_marketplace.Base.{
  Text, text_eq, codes, ℕ, zero, suc, ◌+◌, ◌*◌, ◌/◌, ◌%◌, min, ltb, leb, ◌==◌, Bool, false, Option,
  none, some, List, [], ◌∷◌, ◌++◌, if◌then◌else◌,
}
use bnb_agent_marketplace.Errors.{◌>>=◌, ◌>>◌, zero_division, Result, ok, err}

-- `round(a / b)`: to the nearest integer, and a half to the even one.
unfoldable pub round_div : ℕ → ℕ → ℕ
round_div a b =
    let q = a / b in
    let r = a % b in if ltb (2 * r) b then q else if ltb b (2 * r) then q + 1 else q + q % 2

unfoldable pub latency_band_points : Option ℕ → ℕ
latency_band_points none = 0
latency_band_points (some ms) =
    if leb ms 300
    then 100
    else if leb ms 1000
    then 75
    else if leb ms 3000
    then 50
    else if leb ms 10000
    then 25
    else 0

pub record ProbeParts : Type 0 where
  pub responded : ℕ
  pub latency : ℕ
  pub presence : ℕ
  pub skills : ℕ

pub record TrackParts : Type 0 where
  pub age : ℕ
  pub events : ℕ
  pub buyers : ℕ
  pub recency : ℕ

-- The arguments of the pillars. `age_micros` is the age in months times the microseconds of a month.
pub record Probe : Type 0 where
  pub responded : Option Bool
  pub latency_ms : Option ℕ
  pub presence : Option Text
  pub skills_count : Option ℕ

pub record TrackRecord : Type 0 where
  pub age_micros : Option ℕ
  pub event_count : Option ℕ
  pub unique_buyers : Option ℕ
  pub recency_days : Option ℕ

-- 30.44 days.
abbrev pub month_micros : ℕ
month_micros = 2630016000000

-- `n or 0`
abbrev or_zero : Option ℕ → ℕ
or_zero none = 0
or_zero (some n) = n

abbrev is_online : Option Text → Bool
is_online none = false
is_online (some p) = text_eq p (codes "online")

unfoldable pub probe_parts : Probe → Option ProbeParts
unfolding latency_band_points
probe_parts p = elim p.responded [
  | none ↦ none
  | some r ↦ some (record {
    responded = if r then 100 else 0;
    latency = latency_band_points p.latency_ms;
    presence = if is_online p.presence then 100 else 50;
    skills = min (or_zero p.skills_count) 10 * 10;
  })
]

-- `round(min(n / cap, 1.0) * 100.0)`
unfoldable pub capped : ℕ → ℕ → ℕ
unfolding round_div
capped n cap = if leb cap n then 100 else round_div (100 * n) cap

-- 50 for what is not known.
abbrev pub capped_or_neutral : Option ℕ → ℕ → ℕ
capped_or_neutral none cap = 50
capped_or_neutral (some n) cap = capped n cap

-- `round(min(30.0 / recency_days, 1.0) * 100.0)`
unfoldable pub recency_points : Option ℕ → Result ℕ
unfolding round_div
recency_points none = ok 50
recency_points (some zero) = err zero_division
recency_points (some (suc d)) = ok (if leb (suc d) 30 then 100 else round_div 3000 (suc d))

abbrev neutral_parts : TrackParts
neutral_parts = record { age = 50; events = 50; buyers = 50; recency = 50 }

unfoldable pub track_parts : TrackRecord → Result TrackParts
unfolding capped recency_points
track_parts t = elim t.event_count [
  | none ↦ ok neutral_parts
  | some n ↦ if n == 0 then ok neutral_parts else (do
    recency ← recency_points t.recency_days
    ok (record {
      age = capped_or_neutral t.age_micros (12 * month_micros);
      events = capped n 10;
      buyers = capped_or_neutral t.unique_buyers 10;
      recency = recency;
    }))
]

-- The weights are 0.5, 0.3, 0.1 and 0.1.
abbrev weigh : ProbeParts → ℕ
weigh p = round_div (5 * p.responded + 3 * p.latency + p.presence + p.skills) 10

unfoldable pub compute_probe_pillar : Probe → Option ℕ
unfolding probe_parts round_div
compute_probe_pillar p = elim (probe_parts p) [ none ↦ none | some parts ↦ some (weigh parts) ]

unfoldable pub compute_track_record_pillar : TrackRecord → Result ℕ
unfolding track_parts round_div
compute_track_record_pillar t = do
  parts ← track_parts t
  ok (round_div (parts.age + parts.events + parts.buyers + parts.recency) 4)

-- The weights are 0.60 and 0.40.
unfoldable pub composite_score : Option ℕ → Option ℕ → ℕ
unfolding round_div
composite_score (some probe) (some track) = round_div (3 * probe + 2 * track) 5
composite_score (some probe) none = probe
composite_score none (some track) = track
composite_score none none = 50

-- A row `{dimension, score, weight}`; the weight is in hundredths.
pub record Dimension : Type 0 where
  pub dimension : Text
  pub score : ℕ
  pub weight : ℕ

abbrev probe_rows : Option ProbeParts → List Dimension
probe_rows none = []
probe_rows (some p) =
    record { dimension = codes "responded"; score = p.responded; weight = 50 }
    ∷ record { dimension = codes "latency"; score = p.latency; weight = 30 }
    ∷ record { dimension = codes "presence"; score = p.presence; weight = 10 }
    ∷ record { dimension = codes "skills"; score = p.skills; weight = 10 }
    ∷ []

abbrev track_rows : TrackParts → List Dimension
track_rows t =
    record { dimension = codes "age"; score = t.age; weight = 25 }
    ∷ record { dimension = codes "events"; score = t.events; weight = 25 }
    ∷ record { dimension = codes "buyers"; score = t.buyers; weight = 25 }
    ∷ record { dimension = codes "recency"; score = t.recency; weight = 25 }
    ∷ []

unfoldable pub build_breakdown : Probe → TrackRecord → Result (List Dimension)
unfolding probe_parts track_parts
build_breakdown p t = do track ← track_parts t; ok (probe_rows (probe_parts p) ++ track_rows track)
