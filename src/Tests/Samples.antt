-- ===== src/Tests/Samples.antt =====
-- Concrete doubles, observations and a pipeline for the runs.
use gcad.Base.{arith, true, List, [], ◌∷◌, if◌then◌else◌, ◌==◌, ◌&&◌, leb}
use gcad.Base.Bytes.{Bytes, text}
use gcad.Common.{ThreatLevel}
use gcad.Security.Observation.{
  Doubles, IsIeee, one_double, fifty_double, ObservationKind, SecurityObservation,
}
use gcad.Security.Policy.{
  default_policy, RemediationCandidate, ResponseAction, CandidateApprovalState,
}
use gcad.Security.Pipeline.{SecurityPipeline}
use gcad.Security.Pipeline
use gcad.Security.Pipeline.Calls.{Call, run}

-- Doubles on which only 0.0 and 1.0 are used as a factor of 50.0.
abbrev pub sample_doubles : Doubles
sample_doubles = record {
  is_finite = λ c. leb c one_double;
  le = leb;
  mul = λ c d. if (c == one_double) && (d == fifty_double) then fifty_double else 0;
  lround = λ c. if c == fifty_double then 50 else 0;
}

pub sample_doubles-IsIeee : IsIeee sample_doubles
sample_doubles-IsIeee = record { lround-mul-le = λ c f l h. ground arith }

-- A certain sighting of one file by the given source.
abbrev pub sighting : Bytes → SecurityObservation
sighting source = record {
  source_id = source;
  kind = ObservationKind.artifact_signature;
  timestamp = 0;
  suggested_level = ThreatLevel.critical;
  confidence = one_double;
  deterministic = true;
  process_id = 0;
  process_name = [];
  file_path = text "d:/x.exe";
  sha256 = text "ab";
  evidence = text "match";
}

abbrev pub first_sighting : SecurityObservation
first_sighting = sighting (text "signature")

abbrev pub second_sighting : SecurityObservation
second_sighting = sighting (text "yara")

-- Two sources see the file; the worker takes both.
abbrev pub two_sightings : List Call
two_sightings =
    Call.starts true
    ∷ Call.publishes first_sighting
    ∷ Call.publishes second_sighting
    ∷ Call.works 1
    ∷ Call.works 2
    ∷ []

abbrev pub new_pipeline : SecurityPipeline
new_pipeline = Pipeline.init 8 default_policy

abbrev pub after_two : SecurityPipeline
after_two = run sample_doubles new_pipeline two_sightings

-- And the candidate is approved.
abbrev pub decided_calls : List Call
decided_calls =
    Call.starts true
    ∷ Call.publishes first_sighting
    ∷ Call.publishes second_sighting
    ∷ Call.works 1
    ∷ Call.works 2
    ∷ Call.approves 2
    ∷ []

abbrev pub decided_pipeline : SecurityPipeline
decided_pipeline = run sample_doubles new_pipeline decided_calls

abbrev pub approved_candidate : RemediationCandidate
approved_candidate = record {
  finding_id = 2;
  requested_action = ResponseAction.quarantine_candidate;
  approval_state = CandidateApprovalState.approved;
  target_path = text "d:/x.exe";
  expected_sha256 = text "ab";
  rationale = text "match";
}
