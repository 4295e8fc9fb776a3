-- ===== src/Score/Total.antt =====
-- app/services/agent_total_score.py: the total score of an agent's page. `hires` and `reviews` are counts.
use bnb_agent_marketplace.Base.{
  Text, codes, ℕ, ◌+◌, ◌≤◌, ◌≡◌, refl, ltb, Option, none, some, List, [], ◌∷◌, arith, if◌then◌else◌,
}
use bnb_agent_marketplace.Base.Int.{ℤ, pos, negsuc}

pub record ScoreBreakdown : Type 0 where
  pub base : ℕ
  pub bonus_hires : ℕ
  pub bonus_reviews : ℕ
  pub total : ℕ
  pub components : List (Text × ℕ)

-- The keyword arguments of `compute_total_score`.
pub record Signals : Type 0 where
  pub endpoint_health : Option ℤ
  pub endpoint_verification : Option ℤ
  pub metadata_completeness : Option ℤ
  pub wallet_activity : Option ℤ
  pub activity_score : Option ℤ
  pub score_breakdown : Option ℤ
  pub hires : ℕ
  pub reviews : ℕ

abbrev bonus_threshold : ℕ
bonus_threshold = 10

abbrev bonus_amount : ℕ
bonus_amount = 10

unfoldable pub clamp_non_negative : Option ℤ → ℕ
clamp_non_negative none = 0
clamp_non_negative (some (pos n)) = n
clamp_non_negative (some (negsuc _)) = 0

-- The body of the loop: a component that is not `None` joins the dict.
unfoldable pub with_component : Text → Option ℤ → List (Text × ℕ) → List (Text × ℕ)
unfolding clamp_non_negative
with_component name none rest = rest
with_component name (some n) rest = (name, clamp_non_negative (some n)) ∷ rest

unfoldable pub sum_values : List (Text × ℕ) → ℕ
sum_values [] = 0
sum_values ((_, n) ∷ rest) = n + sum_values rest

-- `10 if n > 10 else 0`
unfoldable pub bonus_for : ℕ → ℕ
bonus_for n = if ltb bonus_threshold n then bonus_amount else 0

unfoldable pub compute_total_score : Signals → ScoreBreakdown
compute_total_score s =
    let components = with_component (codes "endpoint_health") s.endpoint_health (
      with_component (codes "endpoint_verification") s.endpoint_verification (
        with_component (codes "metadata_completeness") s.metadata_completeness (
          with_component (codes "wallet_activity") s.wallet_activity (
            with_component (codes "activity_score") s.activity_score
              (with_component (codes "score_breakdown") s.score_breakdown []))))) in
    record {
      base = sum_values components;
      bonus_hires = bonus_for s.hires;
      bonus_reviews = bonus_for s.reviews;
      total = sum_values components + bonus_for s.hires + bonus_for s.reviews;
      components = components;
    }

sum_values-with_component :
    (name : Text) (o : Option ℤ) (rest : List (Text × ℕ))
    → sum_values (with_component name o rest) ≡ clamp_non_negative o + sum_values rest
unfolding sum_values with_component clamp_non_negative
sum_values-with_component name none rest = omega arith
sum_values-with_component name (some n) rest = refl

-- A signal is a score out of 100, or is not known.
abbrev pub IsSignal : Option ℤ → Type 0
IsSignal o = clamp_non_negative o ≤ 100

-- Where no signal is above 100, the base is at most 600, and the total is the base with at most ten
-- points for the hires and ten for the reviews.
pub compute_total_score-bound :
    (s : Signals)
    → IsSignal s.endpoint_health
    → IsSignal s.endpoint_verification
    → IsSignal s.metadata_completeness
    → IsSignal s.wallet_activity
    → IsSignal s.activity_score
    → IsSignal s.score_breakdown
    → ((compute_total_score s).base ≤ 600)
      × ((compute_total_score s).base ≤ (compute_total_score s).total)
      × ((compute_total_score s).total ≤ (compute_total_score s).base + 20)
unfolding compute_total_score bonus_for sum_values
compute_total_score-bound s a b c d e f = (
  rw
      (
        sum_values-with_component, sum_values-with_component, sum_values-with_component,
        sum_values-with_component, sum_values-with_component, sum_values-with_component,
      )
      (omega (arith, a, b, c, d, e, f)),
  ground arith,
  ground arith,
)
