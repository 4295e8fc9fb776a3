-- ===== src/Score/Track.antt =====
-- `fetch_track_record` of app/services/agent_score.py: the record of an agent's events in the last
-- ninety days, and what the pillar makes of it. Times are in microseconds since the epoch.
use bnb_agent_marketplace.Errors.{err, zero_division}
use bnb_agent_marketplace.Base.{
  Bool-cases, Text, text_eq, text_eq_iff, ℕ, ◌<◌, ◌≤◌, ◌+◌, ◌-◌, ◌*◌, ◌/◌, ◌≡◌, refl, inl, inr, leb,
  max, Bool, false, ◌&&◌, ◌||◌, Option, none, some, List, [], ◌∷◌, ◌++◌, map, arith, if◌then◌else◌,
}
use bnb_agent_marketplace.Payment.Types.{zero_address}
use bnb_agent_marketplace.Score.{
  TrackRecord, track_parts, recency_points, compute_track_record_pillar,
}

-- The columns of `OnchainAgentEvent` that are read.
pub record AgentEvent : Type 0 where
  pub agent_id : Text
  pub tx_hash : Text
  pub from_address : Text
  pub to_address : Text
  pub timestamp : ℕ

abbrev pub day_micros : ℕ
day_micros = 86400000000

abbrev pub track_window_days : ℕ
track_window_days = 90

unfoldable pub member : Text → List Text → Bool
member t [] = false
member t (x ∷ l) = text_eq x t || member t l

-- `COUNT(DISTINCT …)`
unfoldable pub count_distinct : List Text → ℕ
unfolding member
count_distinct [] = 0
count_distinct (t ∷ l) = if member t l then count_distinct l else count_distinct l + 1

-- The rows of the `WHERE`.
unfoldable pub in_window : Text → ℕ → List AgentEvent → List AgentEvent
in_window agent_id cutoff [] = []
in_window agent_id cutoff (e ∷ l) =
    if text_eq e.agent_id agent_id && leb cutoff e.timestamp
    then e ∷ in_window agent_id cutoff l
    else in_window agent_id cutoff l

-- `MAX(timestamp)`
unfoldable pub latest : List AgentEvent → Option ℕ
latest [] = none
latest (e ∷ l) = elim (latest l) [ none ↦ some e.timestamp | some t ↦ some (max e.timestamp t) ]

-- The buyers: who received from somebody.
unfoldable pub buyers : List AgentEvent → List Text
buyers [] = []
buyers (e ∷ l) = if text_eq e.from_address zero_address then buyers l else e.to_address ∷ buyers l

-- `max(0, (now - latest).days)`
abbrev days_since : ℕ → Option ℕ → Option ℕ
days_since now none = none
days_since now (some t) = some ((now - t) / day_micros)

abbrev age_at : ℕ → Option ℕ → Option ℕ
age_at now none = none
age_at now (some t) = some (now - t)

unfoldable pub fetch_track_record : Option ℕ → List AgentEvent → Text → ℕ → TrackRecord
fetch_track_record created_at events agent_id now =
    let rows = in_window agent_id (now - track_window_days * day_micros) events in
    record {
      age_micros = age_at now created_at;
      event_count = some (count_distinct (map (λ e. e.tx_hash) rows));
      unique_buyers = some (count_distinct (buyers rows));
      recency_days = days_since now (latest rows);
    }

count_positive : (t : Text) (l : List Text) → 0 < count_distinct (t ∷ l)
unfolding count_distinct member
count_positive t [] = omega arith
count_positive t (x ∷ l) = elim (Bool-cases (member t (x ∷ l))) [
  | inl e ↦ rw (e, count_distinct) (count_positive x l)
  | inr e ↦ rw (e, count_distinct) (omega arith)
]

latest_from :
    (rows : List AgentEvent) (e : AgentEvent)
    → (t : ℕ) × (latest (e ∷ rows) ≡ some t) × (e.timestamp ≤ t)
unfolding latest
latest_from rows e =
    elim (latest rows)
      as (λ l.
        (t : ℕ) × (elim l as (λ _. Option ℕ) [
          | none ↦ some e.timestamp
          | some t' ↦ some (max e.timestamp t')
        ]
          ≡ some t)
        × (e.timestamp ≤ t)) [
          | none ↦ (e.timestamp, refl, omega arith)
          | some t ↦ (max e.timestamp t, refl, omega arith)
        ]

latest_cons :
    (rows : List AgentEvent) (x : AgentEvent) {t : ℕ}
    → latest rows ≡ some t
    → latest (x ∷ rows) ≡ some (max x.timestamp t)
unfolding latest
latest_cons rows x found = rw found refl

-- An event of the window bounds the latest one from below.
latest_window :
    (agent_id : Text) (cutoff : ℕ) (before after : List AgentEvent) (e : AgentEvent)
    → e.agent_id ≡ agent_id
    → cutoff ≤ e.timestamp
    → (t : ℕ) × (first : AgentEvent) × (rest : List AgentEvent) × (in_window agent_id cutoff
          (before ++ e ∷ after)
        ≡ first ∷ rest)
      × (latest (in_window agent_id cutoff (before ++ e ∷ after)) ≡ some t)
      × (e.timestamp ≤ t)
unfolding in_window
latest_window agent_id cutoff [] after e mine recent =
    let here : in_window agent_id cutoff (e ∷ after) ≡ e ∷ in_window agent_id cutoff after =
      ground (arith, text_eq_iff e.agent_id agent_id) in
    let (t, found, le) = latest_from (in_window agent_id cutoff after) e in
    (t, e, in_window agent_id cutoff after, here, rw here found, le)
latest_window agent_id cutoff (x ∷ before) after e mine recent =
    let (t, first, rest, same, found, le) =
      latest_window agent_id cutoff before after e mine recent in
    elim (Bool-cases (text_eq x.agent_id agent_id && leb cutoff x.timestamp)) [
      | inl kept ↦ rw kept (
        max x.timestamp t,
        x,
        in_window agent_id cutoff (before ++ e ∷ after),
        refl,
        latest_cons (in_window agent_id cutoff (before ++ e ∷ after)) x found,
        omega (arith, le),
      )
      | inr dropped ↦ rw dropped (t, first, rest, same, found, le)
    ]

-- The pillar divides by the days of recency.
pillar_raises :
    (t : TrackRecord) {n : ℕ}
    → t.event_count ≡ some n
    → 0 < n
    → t.recency_days ≡ some 0
    → compute_track_record_pillar t ≡ err zero_division
unfolding compute_track_record_pillar track_parts recency_points
pillar_raises t {n} counted positive recent = rw (counted, recent) (ground arith)

-- An agent that had an event within the last day has no track-record pillar: the division by its
-- zero days of recency raises.
pub active_today_raises :
    (created_at : Option ℕ) (before after : List AgentEvent) (e : AgentEvent) (agent_id : Text)
    (now : ℕ)
    → e.agent_id ≡ agent_id
    → now < e.timestamp + day_micros
    → compute_track_record_pillar (fetch_track_record created_at (before ++ e ∷ after) agent_id now)
      ≡ err zero_division
active_today_raises created_at before after e agent_id now mine today =
    let cutoff = now - track_window_days * day_micros in
    let (t, first, rest, same, found, le) =
      latest_window agent_id cutoff before after e mine (omega (arith, today)) in
    let zero_days : (now - t) / day_micros ≡ 0 = omega (arith, today, le) in
    let record_is = fetch_track_record created_at (before ++ e ∷ after) agent_id now in
    let counted : record_is.event_count
        ≡ some (count_distinct (first.tx_hash ∷ map (λ e. e.tx_hash) rest)) =
      unfold fetch_track_record in rw same refl in
    let recent : record_is.recency_days ≡ some 0 =
      unfold fetch_track_record in rw (found, zero_days) refl in
    pillar_raises record_is counted (count_positive first.tx_hash (map (λ e. e.tx_hash) rest))
      recent
