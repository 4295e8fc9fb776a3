-- ===== src/Score/WalletBounds.antt =====
-- Bounds and order of the wallet activity.
use native.Mathlib.Nat.{mul-le-mul_left}
use bnb_agent_marketplace.Payment.Types.{zero_address}
use bnb_agent_marketplace.Score.Bounds.{round_div-bound}
use bnb_agent_marketplace.Base.{
  arith, All, Text, ℕ, ◌+◌, ◌≤◌, ◌≡◌, some, List, [], ◌∷◌, Bool-cases, text_eq, text_eq_iff, zero,
  suc, ◌*◌, ◌<◌, min, sym, ◌∙◌, inl, inr, true, Option, none, ltb,
}
use bnb_agent_marketplace.Score.{round_div}
use bnb_agent_marketplace.Score.Track.{count_distinct, member}
use bnb_agent_marketplace.Indexer.Store.{OnchainTransfer}
use bnb_agent_marketplace.Score.Wallet.{
  recency_term, compute_pillar, sides, wallet_pillar_score, compute_wallet_activity_score,
  wallet_rows, query_wallet, WalletSignal,
}

-- A wallet whose last transfer is one day old has exactly 20 points more than the same wallet with a
-- transfer today.
pub today_scores_less :
    (events counterparties : ℕ)
    → compute_pillar events counterparties (some 1)
      ≡ compute_pillar events counterparties (some 0) + 2000
unfolding compute_pillar recency_term round_div
today_scores_less events counterparties = ground arith

count_distinct-same : (a : Text) (l : List Text) → All (λ s. s ≡ a) l → count_distinct l ≤ 1
unfolding count_distinct member
count_distinct-same a [] h = omega arith
count_distinct-same a (s ∷ []) h = omega arith
count_distinct-same a (s ∷ u ∷ l) (e, (f, h)) =
    let again : text_eq u s ≡ true = (text_eq_iff u s).1 (f ∙ sym e) in
    rw again (count_distinct-same a (u ∷ l) (f, h))

sides-same :
    (a : Text) (rows : List OnchainTransfer)
    → All (λ t. t.from_address ≡ a) rows
    → All (λ s. s ≡ a) (sides rows)
unfolding sides
sides-same a [] h = tt
sides-same a (t ∷ rows) (e, h) = elim (Bool-cases (text_eq t.from_address zero_address)) [
  | inl mint ↦ rw mint (sides-same a rows h)
  | inr sent ↦ elim (Bool-cases (text_eq t.to_address zero_address)) [
    | inl burnt ↦ rw (sent, burnt) (sides-same a rows h)
    | inr kept ↦ rw (sent, kept) (e, sides-same a rows h)
  ]
]

-- A wallet all of whose transfers in the window were sent from one spelling of its address has at
-- most one counterparty, however many receivers there are.
pub senders-count_once :
    (addr a : Text) (cutoff now : ℕ) (table : List OnchainTransfer)
    → All (λ t. t.from_address ≡ a) (wallet_rows addr cutoff table)
    → (query_wallet addr cutoff now table).counterparties ≤ 1
unfolding query_wallet
senders-count_once addr a cutoff now table h =
    count_distinct-same a (sides (wallet_rows addr cutoff table))
      (sides-same a (wallet_rows addr cutoff table) h)

recency_term-bound :
    (d : Option ℕ) → ((recency_term d).0 ≤ (recency_term d).1) × (0 < (recency_term d).1)
unfolding recency_term
recency_term-bound none = (omega arith, omega arith)
recency_term-bound (some zero) = (omega arith, omega arith)
recency_term-bound (some (suc d)) = (ground arith, ground arith)

points-most :
    (m k r t : ℕ) → m ≤ 30 → k ≤ 10 → r ≤ t → 500 * m * t + 900 * k * t + 6000 * r ≤ 10000 * (3 * t)
points-most m k r t em ek er = omega (arith, mul-le-mul_left t em, mul-le-mul_left t ek, er)

compute_pillar-bound :
    (events counterparties : ℕ) (recency_days : Option ℕ)
    → compute_pillar events counterparties recency_days ≤ 10000
unfolding compute_pillar
compute_pillar-bound events counterparties recency_days =
    let (less, some_term) = recency_term-bound recency_days in
    let term = recency_term recency_days in
    round_div-bound
      (500 * min events 30 * term.1 + 900 * min counterparties 10 * term.1 + 6000 * term.0)
      (3 * term.1) 10000
      (points-most (min events 30) (min counterparties 10) term.0 term.1 (omega arith) (omega arith)
        less)
      (omega (arith, some_term))

pub wallet_pillar_score-bound : (s : WalletSignal) → wallet_pillar_score s ≤ 10000
unfolding wallet_pillar_score
wallet_pillar_score-bound s =
    ground (arith, compute_pillar-bound s.events s.counterparties s.recency_days)

-- Where the track record is at most 100 points, so is the wallet activity.
pub compute_wallet_activity_score-bound :
    (creator owner : WalletSignal) (track_record_score : ℕ)
    → track_record_score ≤ 10000
    → compute_wallet_activity_score creator owner track_record_score ≤ 10000
unfolding compute_wallet_activity_score
compute_wallet_activity_score-bound creator owner track_record_score small =
    let c = wallet_pillar_score-bound creator in
    let o = wallet_pillar_score-bound owner in
    let raw =
      5 * wallet_pillar_score creator + 3 * wallet_pillar_score owner + 2 * track_record_score in
    let n = creator.events + owner.events in
    let whole : raw ≤ 100000 = omega (arith, c, o, small) in
    elim (Bool-cases (ltb n 3)) [
      | inl few ↦
          rw (compute_wallet_activity_score, few)
            (round_div-bound (n * raw + 150000) (10 * (n + 3)) 10000
              (omega (arith, mul-le-mul_left n whole)) (omega arith))
      | inr many ↦
          rw (compute_wallet_activity_score, many)
            (round_div-bound raw 10 10000 (omega (arith, whole)) (omega arith))
    ]
