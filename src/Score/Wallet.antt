-- ===== src/Score/Wallet.antt =====
-- app/services/wallet_activity.py: the activity of an agent's wallets over the indexed transfers. Scores
-- are in hundredths and exact: within the window of 90 days each quotient that lies on a half is a
-- short decimal, so that the source's decimals round the same way. Times are in microseconds.
use bnb_agent_marketplace.Payment.Types.{zero_address}
use bnb_agent_marketplace.Base.{
  ltb, leb, if◌then◌else◌, Text, text_eq, is_empty, lower, strip, ℕ, zero, suc, ◌+◌, ◌-◌, ◌*◌, ◌/◌,
  min, max, Bool, true, false, not, ◌&&◌, ◌||◌, Option, none, some, List, [], ◌∷◌,
}
use bnb_agent_marketplace.Score.{round_div}
use bnb_agent_marketplace.Score.Track.{day_micros, track_window_days, count_distinct, latest}
use bnb_agent_marketplace.Indexer.Store.{OnchainTransfer}

pub record WalletSignal : Type 0 where
  pub events : ℕ
  pub counterparties : ℕ
  pub recency_days : Option ℕ
  pub is_neutral : Bool

pub record WalletSignals : Type 0 where
  pub creator : WalletSignal
  pub owner : WalletSignal
  pub creator_is_owner : Bool

abbrev pub neutral_wallet_signal : WalletSignal
neutral_wallet_signal = record {
  events = 0;
  counterparties = 0;
  recency_days = none;
  is_neutral = true;
}

-- `recency_term`, as a fraction: `min(1, 30 / recency_days)`, and 0 for no days.
unfoldable pub recency_term : Option ℕ → ℕ × ℕ
recency_term none = (0, 1)
recency_term (some zero) = (0, 1)
recency_term (some (suc d)) = if leb (suc d) 30 then (1, 1) else (30, suc d)

-- `_compute_pillar`, quantized: 50 points for the events, 30 for the counterparties and 20 for the
-- recency.
unfoldable pub compute_pillar : ℕ → ℕ → Option ℕ → ℕ
unfolding recency_term round_div
compute_pillar events counterparties recency_days =
    let term = recency_term recency_days in
    round_div (500 * min events 30 * term.1 + 900 * min counterparties 10 * term.1 + 6000 * term.0)
      (3 * term.1)

unfoldable pub wallet_pillar_score : WalletSignal → ℕ
unfolding compute_pillar
wallet_pillar_score s =
    if s.is_neutral then 5000 else compute_pillar s.events s.counterparties s.recency_days

unfoldable pub compute_wallet_activity_score : WalletSignal → WalletSignal → ℕ → ℕ
unfolding wallet_pillar_score round_div
compute_wallet_activity_score creator owner track_record_score =
    let raw =
      5 * wallet_pillar_score creator + 3 * wallet_pillar_score owner + 2 * track_record_score in
    let n = creator.events + owner.events in
    if ltb n 3 then round_div (n * raw + 150000) (10 * (n + 3)) else round_div raw 10

pub record WalletBreakdown : Type 0 where
  pub creator : ℕ
  pub owner : ℕ
  pub track_record : ℕ

-- `int` cuts the hundredths off.
unfoldable pub compute_wallet_activity_breakdown : WalletSignals → ℕ → WalletBreakdown
unfolding wallet_pillar_score
compute_wallet_activity_breakdown s track_record_score = record {
  creator = wallet_pillar_score s.creator / 100;
  owner = wallet_pillar_score s.owner / 100;
  track_record = track_record_score / 100;
}

-- The rows of a wallet since the cutoff.
unfoldable pub wallet_rows : Text → ℕ → List OnchainTransfer → List OnchainTransfer
unfolding text_eq lower
wallet_rows addr cutoff [] = []
wallet_rows addr cutoff (t ∷ table) =
    let rest = wallet_rows addr cutoff table in
    if (text_eq (lower t.from_address) addr || text_eq (lower t.to_address) addr)
      && leb cutoff t.timestamp
    then t ∷ rest
    else rest

abbrev pub hashes : List OnchainTransfer → List Text
hashes [] = []
hashes (t ∷ table) = t.tx_hash ∷ hashes table

-- The side that `case` picks, of the rows that the filter keeps.
unfoldable pub sides : List OnchainTransfer → List Text
unfolding text_eq
sides [] = []
sides (t ∷ table) =
    let rest = sides table in
    if not (text_eq t.from_address zero_address) && not (text_eq t.to_address zero_address)
    then (if text_eq t.from_address zero_address then t.to_address else t.from_address) ∷ rest
    else rest

unfoldable pub latest_transfer : List OnchainTransfer → Option ℕ
latest_transfer [] = none
latest_transfer (t ∷ table) = elim (latest_transfer table) [
  | none ↦ some t.timestamp
  | some u ↦ some (max t.timestamp u)
]

unfoldable pub query_wallet : Text → ℕ → ℕ → List OnchainTransfer → WalletSignal
unfolding wallet_rows sides latest_transfer count_distinct
query_wallet addr cutoff now table =
    let rows = wallet_rows addr cutoff table in
    record {
      events = count_distinct (hashes rows);
      counterparties = count_distinct (sides rows);
      recency_days = elim (latest_transfer rows) [
        | none ↦ none
        | some latest ↦ some ((now - latest) / day_micros)
      ];
      is_neutral = false;
    }

-- The wallet's signal, or the neutral one where there is no address.
unfoldable pub signal_of : Text → ℕ → List OnchainTransfer → WalletSignal
unfolding query_wallet
signal_of [] now table = neutral_wallet_signal
signal_of (c ∷ s) now table = query_wallet (c ∷ s) (now - track_window_days * day_micros) now table

-- `(address or "").strip().lower()`
unfoldable pub clean_address : Option Text → Text
unfolding strip lower
clean_address none = []
clean_address (some address) = lower (strip address)

-- The two addresses are `none` where there is no such agent. Where they are equal, one query
-- serves both.
unfoldable pub fetch_wallet_signals :
    Option Text → Option Text → ℕ → List OnchainTransfer → WalletSignals
unfolding clean_address signal_of text_eq
fetch_wallet_signals creator_address owner_address now table =
    let creator_addr = clean_address creator_address in
    let owner_addr = clean_address owner_address in
    record {
      creator = signal_of creator_addr now table;
      owner = signal_of owner_addr now table;
      creator_is_owner =
          not (is_empty creator_addr)
          && not (is_empty owner_addr)
          && text_eq creator_addr owner_addr;
    }
