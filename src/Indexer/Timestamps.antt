-- ===== src/Indexer/Timestamps.antt =====
-- `_make_ts_resolver` of app/services/onchain_indexer.py. Times are in microseconds, a block's own time
-- is a whole second. `nearest k d span` stands for `round(k * (d / span))` in doubles.
use bnb_agent_marketplace.Base.{
  ℕ, leb, ◌==◌, if◌then◌else◌, ◌+◌, ◌-◌, ◌*◌, ◌≤◌, ◌<◌, max, Option, none, some,
}

-- `get_ts`: the time of a block in seconds, if the node gives it.
abbrev pub TsGetter : Type 0 → Type 0
TsGetter W = ℕ → W → Option ℕ × W

unfoldable pub distance : ℕ → ℕ → ℕ
distance a b = if leb a b then b - a else a - b

-- `ts_from + timedelta(seconds=offset)`, where the offset is negative when just one of the block
-- and the last time is below the first.
unfoldable pub resolve : (ℕ → ℕ → ℕ → ℕ) → ℕ → ℕ → ℕ → ℕ → ℕ → ℕ
unfolding distance
resolve nearest from_block to_block ts_from ts_to block =
    let span = max (to_block - from_block) 1 in
    let offset = nearest (distance from_block block) (distance ts_from ts_to) span in
    if leb from_block block
    then (if leb ts_from ts_to then (ts_from + offset) * 1000000 else (ts_from - offset) * 1000000)
    else (if leb ts_from ts_to then (ts_from - offset) * 1000000 else (ts_from + offset) * 1000000)

-- The choice between the two edges.
unfoldable pub edges : (ℕ → ℕ → ℕ → ℕ) → ℕ → ℕ → ℕ → Option ℕ → Option ℕ → ℕ → ℕ
unfolding resolve
edges nearest now from_block to_block none none block = now
edges nearest now from_block to_block none (some t) block =
    resolve nearest from_block to_block t t block
edges nearest now from_block to_block (some t) none block =
    resolve nearest from_block to_block t t block
edges nearest now from_block to_block (some t) (some u) block =
    resolve nearest from_block to_block t u block

unfoldable pub make_ts_resolver :
    {W : Type 0} → (ℕ → ℕ → ℕ → ℕ) → ℕ → TsGetter W → ℕ → ℕ → W → (ℕ → ℕ) × W
unfolding edges
make_ts_resolver nearest now get_ts from_block to_block w =
    let first = get_ts from_block w in
    let last = (if to_block == from_block then (first.0, first.1) else get_ts to_block first.1) in
    (edges nearest now from_block to_block first.0 last.0, last.1)

-- `r` is a whole number nearest to `k * d / span`.
abbrev pub IsNearest : (ℕ → ℕ → ℕ → ℕ) → Type 0
IsNearest nearest =
    (k d span : ℕ)
    → 0 < span
    → (2 * (span * nearest k d span) ≤ 2 * (k * d) + span)
      × (2 * (k * d) ≤ 2 * (span * nearest k d span) + span)
