-- ===== src/Examples/Scoring.antt =====
-- Scores of concrete agents.
use bnb_agent_marketplace.Errors.{ok}
use bnb_agent_marketplace.Base.{codes, ◌≤◌, ◌≡◌, refl, some, none, true, arith, text_eq}
use bnb_agent_marketplace.Score.{
  Probe, TrackRecord, latency_band_points, compute_probe_pillar, compute_track_record_pillar,
}
use bnb_agent_marketplace.Base.Int.{pos, negsuc}
use bnb_agent_marketplace.Score.Total.{Signals}
use bnb_agent_marketplace.Score.Bounds.{latency-antitone}

latency-antitone_example : latency_band_points (some 1200) ≤ latency_band_points (some 250)
latency-antitone_example = latency-antitone 250 1200 (omega arith)

abbrev probe : Probe
probe = record {
  responded = some true;
  latency_ms = some 1200;
  presence = some (codes "online");
  skills_count = some 3;
}

probe_runs : compute_probe_pillar probe ≡ some 78
unfolding compute_probe_pillar text_eq
probe_runs = refl

abbrev track : TrackRecord
track = record {
  age_micros = none;
  event_count = some 4;
  unique_buyers = some 2;
  recency_days = some 45;
}

track_runs : compute_track_record_pillar track ≡ ok 44
unfolding compute_track_record_pillar
track_runs = refl

abbrev signals : Signals
signals = record {
  endpoint_health = some (pos 90);
  endpoint_verification = some (pos 100);
  metadata_completeness = none;
  wallet_activity = some (pos 40);
  activity_score = none;
  score_breakdown = some (negsuc 3);
  hires = 12;
  reviews = 2;
}
