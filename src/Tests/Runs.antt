-- ===== src/Tests/Runs.antt =====
-- Runs of the bus, the engine and the pipeline on the sample sightings.
use gcad.Base.{ℕ, ◌≤◌, ◌≡◌, ◌⊎◌, refl, true, false, Option, none, some, [], ◌∷◌, length, arith}
use gcad.Base.Bytes.{text}
use gcad.Base.Dict.{lookup}
use gcad.Common.{ErrorCode, ThreatLevel}
use gcad.Security.Observation.{correlation_key, valid, one_double}
use gcad.Security.Policy.{
  default_policy, CandidateApprovalState, RemediationCandidate, SecurityFinding,
}
use gcad.Security.Telemetry.{PublishResult}
use gcad.Security.Telemetry.Fifo
use gcad.Security.Telemetry.Fifo.{IsFifo, run-start-IsFifo, run_closed}
use gcad.Security.Correlation.{CorrelationEngine, ActiveState, SourceState, ingest, expire}
use gcad.Security.Correlation
use gcad.Security.Correlation.Invariant
use gcad.Security.Correlation.Invariant.{ingest-IsSound}
use gcad.Security.Correlation.Reports.{IsOutcome, ingest-IsOutcome}
use gcad.Security.Pipeline
use gcad.Security.Pipeline.{
  SecurityPipeline, find_candidate, approve_candidate, reject_candidate, begin_stop, stop,
}
use gcad.Security.Pipeline.Calls
use gcad.Security.Pipeline.Calls.{Call, run}
use gcad.Security.Pipeline.Sound
use gcad.Security.Pipeline.Sound.{run-init-IsSound}
use gcad.Security.Pipeline.Final.{run_decided, HasLetGo}
use gcad.Security.Pipeline.Origins.{Origin, run-init-HaveOrigins}
use gcad.Security.Pipeline.Candidates.{AllCandidates}
use gcad.Security.Pipeline.Drain.{process_all, stop_drains}
use gcad.Security.Pipeline.Approval.{decided, approve_candidate_lem}
use gcad.Tests.Samples.{
  sample_doubles, sample_doubles-IsIeee, first_sighting, second_sighting, two_sightings,
  new_pipeline, after_two, decided_calls, decided_pipeline, approved_candidate,
}
use mathlib.Core.List.{List}

abbrev bus_calls : List Fifo.Call
bus_calls =
    Fifo.Call.publishes first_sighting
    ∷ Fifo.Call.publishes second_sighting
    ∷ Fifo.Call.pops
    ∷ Fifo.Call.closes
    ∷ Fifo.Call.publishes first_sighting
    ∷ []

run-start-IsFifo_example : IsFifo sample_doubles (Fifo.run sample_doubles (Fifo.start 1) bus_calls)
run-start-IsFifo_example = run-start-IsFifo sample_doubles 1 bus_calls

abbrev closed_bus : Fifo.History
closed_bus = Fifo.run sample_doubles (Fifo.start 1) bus_calls

abbrev engine : CorrelationEngine
engine = Correlation.init default_policy

ingest-IsSound_example :
    Invariant.IsSound sample_doubles (ingest sample_doubles first_sighting 1 engine).1
ingest-IsSound_example =
    ingest-IsSound sample_doubles first_sighting 1 engine sample_doubles-IsIeee
      (Invariant.init-IsSound sample_doubles default_policy)

run-init-HaveOrigins_example :
    Sound.IsSound sample_doubles default_policy (run sample_doubles new_pipeline two_sightings)
    × AllCandidates
        (Origin sample_doubles default_policy new_pipeline two_sightings)
        (run sample_doubles new_pipeline two_sightings).candidates
run-init-HaveOrigins_example =
    run-init-HaveOrigins sample_doubles default_policy 8 two_sightings sample_doubles-IsIeee

decided_pipeline-IsSound : Sound.IsSound sample_doubles default_policy decided_pipeline
decided_pipeline-IsSound =
    run-init-IsSound sample_doubles default_policy 8 decided_calls sample_doubles-IsIeee

approved_lookup : find_candidate 2 decided_pipeline ≡ some approved_candidate
unfolding find_candidate run Calls.step approve_candidate Pipeline.work
    gcad.Security.Telemetry.wait_pop Pipeline.publish Pipeline.start Pipeline.init
    gcad.Security.Telemetry.init gcad.Security.Telemetry.publish valid Pipeline.process ingest
    Correlation.correlate lookup expire gcad.Base.Bytes.eqb gcad.Base.Bytes.lexb
    gcad.Base.Bytes.to_string gcad.Base.Bytes.tolower gcad.Base.Dict.put
    Correlation.any_source_deterministic Correlation.drop_stale Correlation.erase
    Correlation.evict_oldest Correlation.finding_of Correlation.init Correlation.level_for
    Correlation.observe Correlation.oldest Correlation.push_bounded Correlation.report
    Correlation.reported Correlation.score_for Correlation.sort Correlation.sum_points
    correlation_key gcad.Security.Observation.identity gcad.Security.Observation.normalize
    Calls.after_work Pipeline.add_candidate Pipeline.find_in Pipeline.transition_candidate
    Pipeline.transition_one gcad.Security.Policy.ascii_lower gcad.Security.Policy.candidate_for
    gcad.Security.Policy.decide gcad.Security.Policy.fold_char
    gcad.Security.Policy.is_protected_path gcad.Security.Policy.path_starts_with
    gcad.Security.Telemetry.close gcad.Security.Telemetry.pop_front
approved_lookup = refl

run_decided_example :
    (find_candidate 2 (run sample_doubles decided_pipeline (Call.rejects 2 ∷ two_sightings))
      ≡ some approved_candidate)
    ⊎ ((find_candidate 2 (run sample_doubles decided_pipeline (Call.rejects 2 ∷ two_sightings))
          ≡ none)
        × HasLetGo 2
            (run sample_doubles decided_pipeline (Call.rejects 2 ∷ two_sightings)).candidates)
run_decided_example =
    run_decided sample_doubles default_policy 2 approved_candidate decided_pipeline
      (Call.rejects 2 ∷ two_sightings) sample_doubles-IsIeee decided_pipeline-IsSound
      approved_lookup (λ e. cc)

approve_candidate_lem_example :
    let (code, q) = approve_candidate 2 after_two in
    ((code, find_candidate 2 q)
      ≡ decided CandidateApprovalState.approved (find_candidate 2 after_two))
    × (find_candidate 7 q ≡ find_candidate 7 after_two)
    × (record q { candidates = after_two.candidates } ≡ after_two)
approve_candidate_lem_example = approve_candidate_lem 2 7 after_two (λ e. omega (arith, e))

-- A running pipeline with an observation still queued.
abbrev queued_pipeline : SecurityPipeline
queued_pipeline =
    run sample_doubles new_pipeline (Call.starts true ∷ Call.publishes first_sighting ∷ [])

queued_running : queued_pipeline.running ≡ true
unfolding run Calls.step Pipeline.publish Pipeline.start Pipeline.init gcad.Security.Telemetry.init
queued_running = refl

queued_length : length queued_pipeline.bus.queue ≡ 1
unfolding run Calls.step Pipeline.publish Pipeline.start Pipeline.init gcad.Security.Telemetry.init
    gcad.Security.Telemetry.publish valid
queued_length = refl

stop_drains_example :
    let q =
      process_all sample_doubles
        (λ n. n)
        3
        queued_pipeline.bus.queue
        (begin_stop queued_pipeline) in
    (stop 3 sample_doubles (λ n. n) queued_pipeline ≡ some (ErrorCode.ok, q))
    × (q.bus.queue ≡ [])
    × (q.bus.is_closed ≡ true)
    × (q.running ≡ false)
stop_drains_example =
    stop_drains 3 sample_doubles (λ n. n) queued_pipeline queued_running
      (omega (arith, queued_length))

abbrev stopped_pipeline : SecurityPipeline
stopped_pipeline = begin_stop new_pipeline

abbrev seen_engine : CorrelationEngine
seen_engine = (ingest sample_doubles first_sighting 1 engine).1

seen_engine-IsSound : Invariant.IsSound sample_doubles seen_engine
seen_engine-IsSound =
    ingest-IsSound sample_doubles first_sighting 1 engine sample_doubles-IsIeee
      (Invariant.init-IsSound sample_doubles default_policy)

abbrev second_finding : SecurityFinding
second_finding = record {
  id = 2;
  timestamp = 2;
  level = ThreatLevel.critical;
  risk_score = 100;
  deterministic_signature = true;
  correlation_key = text "0:ab";
  file_path = text "d:/x.exe";
  sha256 = text "ab";
  rationale = text "match";
  contributing_sources = text "signature" ∷ text "yara" ∷ [];
  observation_ids = [];
}

second_found : (ingest sample_doubles second_sighting 2 seen_engine).0 ≡ some second_finding
unfolding ingest valid Correlation.correlate lookup expire Correlation.drop_stale Correlation.init
    Correlation.report Correlation.score_for Correlation.observe gcad.Base.Dict.put
    Correlation.evict_oldest Correlation.reported gcad.Base.Bytes.eqb correlation_key
    Correlation.finding_of Correlation.level_for Correlation.any_source_deterministic
    Correlation.sort Correlation.sum_points gcad.Base.Bytes.lexb gcad.Base.Bytes.to_string
    gcad.Base.Bytes.tolower gcad.Security.Observation.identity gcad.Security.Observation.normalize
    Correlation.push_bounded
second_found = refl

ingest-IsOutcome_example :
    IsOutcome second_sighting 2 seen_engine
      (ingest sample_doubles second_sighting 2 seen_engine).1
      (ingest sample_doubles second_sighting 2 seen_engine).0
ingest-IsOutcome_example =
    ingest-IsOutcome sample_doubles second_sighting 2 seen_engine sample_doubles-IsIeee
      seen_engine-IsSound

abbrev seen_source : SourceState
seen_source = record {
  confidence = one_double;
  suggested_level = ThreatLevel.critical;
  deterministic = true;
  last_seen = 1;
}

abbrev seen_state : ActiveState
seen_state = record {
  last_seen = 1;
  sources = (text "signature", seen_source) ∷ [];
  file_path = text "d:/x.exe";
  sha256 = text "ab";
  rationale = text "match";
  last_reported_score = 50;
  last_reported_level = ThreatLevel.medium;
}

seen_lookup :
    lookup (correlation_key first_sighting) (expire 2 seen_engine).active ≡ some seen_state
unfolding ingest valid Correlation.correlate lookup expire Correlation.drop_stale Correlation.init
    Correlation.report Correlation.score_for Correlation.observe gcad.Base.Dict.put
    Correlation.evict_oldest Correlation.reported gcad.Base.Bytes.eqb correlation_key
    Correlation.finding_of Correlation.level_for Correlation.any_source_deterministic
    Correlation.sort Correlation.sum_points gcad.Base.Bytes.lexb gcad.Base.Bytes.to_string
    gcad.Base.Bytes.tolower gcad.Security.Observation.identity gcad.Security.Observation.normalize
    Correlation.push_bounded
seen_lookup = refl

source_lookup : lookup (text "signature") seen_state.sources ≡ some seen_source
unfolding lookup gcad.Base.Bytes.eqb
source_lookup = refl

valid_sighting : valid sample_doubles first_sighting ≡ true
unfolding valid
valid_sighting = refl
