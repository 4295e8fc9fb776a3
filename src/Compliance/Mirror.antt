-- ===== src/Compliance/Mirror.antt =====
-- app/services/flagged_sync.py with `run_compliance_refresh` of app/services/compliance_refresh.py: the
-- mirror of the public lists of addresses.
use bnb_agent_marketplace.Base.{
  if◌then◌else◌, length, Text, codes, text_eq, is_empty, lower, strip, ℕ, suc, ◌+◌, not, ◌&&◌, List,
  [], ◌∷◌, ◌++◌, map,
}
use bnb_agent_marketplace.Errors.{◌>>=◌, ok, err, value_error, Result}
use bnb_agent_marketplace.Json.{Json, Items, arr, str, nil, cons}
use bnb_agent_marketplace.Score.Track.{member}
use bnb_agent_marketplace.Compliance.{
  FlaggedAddress, refresh_agent_compliance_flags, ComplianceRefreshReport, Dialect, ComplianceStore,
}

-- `FLAGGED_SOURCES`: a source's name and its URL.
abbrev pub flagged_sources : List (Text × Text)
flagged_sources =
    (
      codes "ofac-bsc",
      codes
          "https://raw.githubusercontent.com/0xB10C/ofac-sanctioned-digital-currency-addresses/lists/sanctioned_addresses_BSC.json",
    )
    ∷ (
      codes "ofac-eth",
      codes
          "https://raw.githubusercontent.com/0xB10C/ofac-sanctioned-digital-currency-addresses/lists/sanctioned_addresses_ETH.json",
    )
    ∷ []

-- The loop over the items, with the addresses seen so far.
unfoldable pub normalize_items : List Text → Items → List Text
unfolding member lower strip
normalize_items seen nil = []
normalize_items seen (cons (str item) items) =
    let addr = lower (strip item) in
    let again = normalize_items seen items in
    let rest = normalize_items (addr ∷ seen) items in
    if not (is_empty addr) && not (member addr seen) then addr ∷ rest else again
normalize_items seen (cons _ items) = normalize_items seen items

unfoldable pub item_count : Items → ℕ
item_count nil = 0
item_count (cons _ items) = suc (item_count items)

-- The addresses, and the length of the raw list.
unfoldable pub normalize_addresses : Json → Result (List Text × ℕ)
unfolding normalize_items item_count
normalize_addresses (arr items) = ok (normalize_items [] items, item_count items)
normalize_addresses _ = err value_error

unfoldable pub delete_source : Text → List FlaggedAddress → List FlaggedAddress
unfolding text_eq
delete_source source [] = []
delete_source source (row ∷ rows) =
    if text_eq row.source source then delete_source source rows else row ∷ delete_source source rows

abbrev pub mirrored : Text → ℕ → Text → FlaggedAddress
mirrored source now addr = record { address = addr; source = source; updated_at = now }

unfoldable pub replace_source : ℕ → Text → List Text → List FlaggedAddress → List FlaggedAddress
unfolding delete_source
replace_source now source addresses rows =
    delete_source source rows ++ map (mirrored source now) addresses

pub record SourceReport : Type 0 where
  pub source : Text
  pub fetched : ℕ
  pub inserted : ℕ

pub record FlaggedSyncReport : Type 0 where
  pub sources : List SourceReport
  pub total_fetched : ℕ
  pub total_inserted : ℕ

-- What a refresh of the sources gives; each source is committed on its own, so that the rows come
-- back beside an error too.
pub record Mirrored (W : Type 0) : Type 0 where
  pub outcome : Result FlaggedSyncReport
  pub rows : List FlaggedAddress
  pub world : W

-- The report with one more source in front.
unfoldable pub add_source : SourceReport → FlaggedSyncReport → FlaggedSyncReport
add_source r report = record {
  sources = r ∷ report.sources;
  total_fetched = r.fetched + report.total_fetched;
  total_inserted = r.inserted + report.total_inserted;
}

abbrev pub add_outcome : SourceReport → Result FlaggedSyncReport → Result FlaggedSyncReport
add_outcome r (ok report) = ok (add_source r report)
add_outcome r (err e) = err e

-- `get`: a request for a list, its JSON or the exception.
module _ {W : Type 0} (get : Text → W → Result Json × W) (now : ℕ) where
  unfoldable pub refresh_sources : List (Text × Text) → List FlaggedAddress → W → Mirrored W
  unfolding normalize_addresses replace_source add_source
  refresh_sources [] rows w = record {
    outcome = ok (record { sources = []; total_fetched = 0; total_inserted = 0 });
    rows = rows;
    world = w;
  }
  refresh_sources ((source, url) ∷ sources) rows w =
      let answer = get url w in
      elim (answer.0 >>= normalize_addresses) [
        | err e ↦ record { outcome = err e; rows = rows; world = answer.1 }
        | ok (addresses, fetched) ↦
            let rest =
              refresh_sources sources (replace_source now source addresses rows) answer.1 in
            record {
              outcome =
                  add_outcome
                    (record { source = source; fetched = fetched; inserted = length addresses })
                    rest.outcome;
              rows = rest.rows;
              world = rest.world;
            }
      ]

  unfoldable pub refresh_flagged_addresses : List FlaggedAddress → W → Mirrored W
  unfolding refresh_sources
  refresh_flagged_addresses = refresh_sources flagged_sources

-- The report of a whole refresh.
pub record RunReport : Type 0 where
  pub sources_total_fetched : ℕ
  pub sources_total_inserted : ℕ
  pub flag_report : ComplianceRefreshReport

module _ {W : Type 0} (get : Text → W → Result Json × W) (now : ℕ) where
  -- The mirror, then the flags; where the mirror raises, what it has committed stays.
  unfoldable pub run_compliance_refresh :
      Dialect → ComplianceStore → W → Result RunReport × ComplianceStore × W
  unfolding refresh_flagged_addresses refresh_agent_compliance_flags
  run_compliance_refresh dialect s w =
      let mirror = refresh_flagged_addresses get now s.flagged w in
      let fed = record s { flagged = mirror.rows } in
      let flags = refresh_agent_compliance_flags dialect now fed in
      elim mirror.outcome [
        | err e ↦ (err e, fed, mirror.world)
        | ok report ↦ (
          ok (record {
            sources_total_fetched = report.total_fetched;
            sources_total_inserted = report.total_inserted;
            flag_report = flags.0;
          }),
          flags.1,
          mirror.world,
        )
      ]
