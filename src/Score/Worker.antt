-- ===== src/Score/Worker.antt =====
-- app/services/probe_worker.py with `materialize_score` of app/services/agent_score.py, app/db/models/agent_probe.py
-- and the columns of app/db/models/agent.py that they use. The probe of the Termix card is a
-- parameter, as are the text of a time and the database's order of keys; the clock is read once.
use bnb_agent_marketplace.Base.{
  ltb, ◌==◌, if◌then◌else◌, is_some, length, take, Text, codes, text_eq, ℕ, Bool, true, false, ◌&&◌,
  ◌||◌, Option, none, some, List, [], ◌∷◌, ◌++◌, map,
}
use bnb_agent_marketplace.Errors.{ok, err, Result}
use bnb_agent_marketplace.Json.{
  Json, Fields, null, bool, int, str, obj, field, end, as_dict, as_str, get, get_value,
}
use bnb_agent_marketplace.Base.Int.{pos}
use bnb_agent_marketplace.Score.{
  Probe, compute_probe_pillar, compute_track_record_pillar, composite_score,
}
use bnb_agent_marketplace.Score.Track.{AgentEvent, fetch_track_record}

-- What `probe_termix_card` gives.
pub record TermixProbe : Type 0 where
  pub responded : Bool
  pub http_status : Option ℕ
  pub latency_ms : Option ℕ
  pub status : Option Text
  pub presence : Option Text
  pub skills_count : Option ℕ
  pub error_text : Option Text

pub record AgentProbe : Type 0 where
  pub agent_id : Text
  pub probed_at : ℕ
  pub probe : TermixProbe
  pub endpoint : Option Text

pub record ProbedAgent : Type 0 where
  pub agent_id : Text
  pub token_id : ℕ
  pub services : Json
  pub created_at : Option ℕ
  pub health_status : Option Fields
  pub health_score : Option ℕ
  pub health_checked_at : Option ℕ
  pub endpoint_last_checked_at : Option ℕ
  pub activity_score : Option ℕ

pub record ProbeStore : Type 0 where
  pub agents : List ProbedAgent
  pub probes : List AgentProbe
  pub events : List AgentEvent

-- `services->'a2a'->>'endpoint'`, where it is present.
unfoldable pub services_endpoint : Json → Option Json
unfolding as_dict get get_value
services_endpoint services = elim (as_dict (some services)) [
  | none ↦ none
  | some d ↦ elim (as_dict (get (codes "a2a") d)) [
    | none ↦ none
    | some a2a ↦ get_value (codes "endpoint") a2a
  ]
]

unfoldable pub declared_a2a_endpoint : Json → Option Text
unfolding services_endpoint as_str
declared_a2a_endpoint services = as_str (services_endpoint services)

-- The order of the selection: those that were never checked come first.
unfoldable pub checked_before : (Text → Text → Bool) → ProbedAgent → ProbedAgent → Bool
checked_before id_before a b = elim a.endpoint_last_checked_at [
  | none ↦ elim b.endpoint_last_checked_at [
    | none ↦ id_before a.agent_id b.agent_id
    | some _ ↦ true
  ]
  | some t ↦ elim b.endpoint_last_checked_at [
    | none ↦ false
    | some u ↦ ltb t u || (t == u && id_before a.agent_id b.agent_id)
  ]
]

unfoldable pub insert_agent :
    (Text → Text → Bool) → ProbedAgent → List ProbedAgent → List ProbedAgent
unfolding checked_before
insert_agent id_before a [] = a ∷ []
insert_agent id_before a (b ∷ l) =
    if checked_before id_before a b then a ∷ b ∷ l else b ∷ insert_agent id_before a l

unfoldable pub probeable : (Text → Text → Bool) → List ProbedAgent → List ProbedAgent
unfolding services_endpoint insert_agent
probeable id_before [] = []
probeable id_before (a ∷ l) =
    let rest = probeable id_before l in
    if is_some (services_endpoint a.services) then insert_agent id_before a rest else rest

-- The keys and tokens of the agents to probe.
unfoldable pub select_probeable : (Text → Text → Bool) → ℕ → List ProbedAgent → List (Text × ℕ)
unfolding probeable
select_probeable id_before limit agents =
    map (λ a. (a.agent_id, a.token_id)) (take limit (probeable id_before agents))

-- `d[key] = v`
unfoldable pub set_field : Text → Json → Fields → Fields
unfolding text_eq
set_field key v end = field key v end
set_field key v (field k u d) = if text_eq k key then field k v d else field k u (set_field key v d)

abbrev pub number_or_null : Option ℕ → Json
number_or_null none = null
number_or_null (some n) = int (pos n)

abbrev pub or_no_fields : Option Fields → Fields
or_no_fields none = end
or_no_fields (some d) = d

unfoldable pub merge_health_status : (ℕ → Text) → Option Fields → TermixProbe → ℕ → Fields
unfolding set_field
merge_health_status isoformat current p probed_at =
    let overall = str (if p.responded then codes "healthy" else codes "unhealthy") in
    let probe_dict = obj (
      field (codes "responded") (bool p.responded) (
        field (codes "http_status") (number_or_null p.http_status) (
          field (codes "latency_ms") (number_or_null p.latency_ms)
            (field (codes "probed_at") (str (isoformat probed_at)) end)))) in
    set_field (codes "probe") probe_dict
      (set_field (codes "overall_status") overall (or_no_fields current))

unfoldable pub find_agent_row : Text → List ProbedAgent → Option ProbedAgent
unfolding text_eq
find_agent_row aid [] = none
find_agent_row aid (a ∷ l) = if text_eq a.agent_id aid then some a else find_agent_row aid l

-- An UPDATE of the row with this key.
unfoldable pub update_agent :
    Text → (ProbedAgent → ProbedAgent) → List ProbedAgent → List ProbedAgent
unfolding text_eq
update_agent aid f [] = []
update_agent aid f (a ∷ l) = (if text_eq a.agent_id aid then f a else a) ∷ update_agent aid f l

abbrev pub probe_of : TermixProbe → Probe
probe_of p = record {
  responded = some p.responded;
  latency_ms = p.latency_ms;
  presence = p.presence;
  skills_count = p.skills_count;
}

-- The track-record pillar of an agent.
unfoldable pub track_pillar : ProbeStore → ProbedAgent → ℕ → Result ℕ
unfolding fetch_track_record compute_track_record_pillar
track_pillar s a now =
    compute_track_record_pillar (fetch_track_record a.created_at s.events a.agent_id now)

module _ {W : Type 0} (isoformat : ℕ → Text) (probe_termix_card : ℕ → W → TermixProbe × W) where
  -- The writes for one agent; its composite score stands in for both updates of the row.
  unfoldable pub materialized : ℕ → TermixProbe → ℕ → ProbedAgent → ProbedAgent
  unfolding merge_health_status compute_probe_pillar composite_score
  materialized probed_at p track a = record a {
    health_status = some (merge_health_status isoformat a.health_status p probed_at);
    health_score = compute_probe_pillar (probe_of p);
    health_checked_at = some probed_at;
    endpoint_last_checked_at = some probed_at;
    activity_score = some (composite_score (compute_probe_pillar (probe_of p)) (some track));
  }

  unfoldable pub probe_agent : ℕ → Text → ℕ → ProbeStore → W → Result ProbeStore × W
  unfolding find_agent_row declared_a2a_endpoint track_pillar update_agent materialized
  probe_agent probed_at aid token_id s w = elim (find_agent_row aid s.agents) [
    | none ↦ (ok s, w)
    | some a ↦
        let answer = probe_termix_card token_id w in
        elim (track_pillar s a probed_at) [
          | err e ↦ (err e, answer.1)
          | ok track ↦ (
            ok (record s {
              agents = update_agent aid (materialized probed_at answer.0 track) s.agents;
              probes =
                  s.probes
                  ++ record {
                    agent_id = aid;
                    probed_at = probed_at;
                    probe = answer.0;
                    endpoint = declared_a2a_endpoint a.services;
                  }
                    ∷ [];
            }),
            answer.1,
          )
        ]
  ]

  unfoldable pub probe_rows_in : ℕ → List (Text × ℕ) → ProbeStore → W → Result ProbeStore × W
  unfolding probe_agent
  probe_rows_in probed_at [] s w = (ok s, w)
  probe_rows_in probed_at ((aid, token_id) ∷ rows) s w =
      let one = probe_agent probed_at aid token_id s w in
      elim one.0 [ err e ↦ (err e, one.1) | ok next ↦ probe_rows_in probed_at rows next one.1 ]

  -- One cycle, committed at its end: where it raises, the store is as it was.
  unfoldable pub probe_cycle :
      (Text → Text → Bool) → ℕ → ℕ → ProbeStore → W → Result ℕ × ProbeStore × W
  unfolding select_probeable probe_rows_in
  probe_cycle id_before limit probed_at s w =
      let rows = select_probeable id_before limit s.agents in
      let run = probe_rows_in probed_at rows s w in
      elim run.0 [ err e ↦ (err e, s, run.1) | ok next ↦ (ok (length rows), next, run.1) ]
