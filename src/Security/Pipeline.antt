-- ===== src/Security/Pipeline.antt =====
-- src/security/security_pipeline.cpp: the bus, the worker that correlates what it pops, and the
-- candidates that await approval. A call of a public method is one step, and so is a turn of the
-- worker's loop, although the code holds no lock from the pop to the test of the closed flag: what
-- other threads do inside a turn is not modelled. Whether the operating system starts the thread and
-- what the clock shows are arguments. Exceptions (memory) are not modelled.
pub mod Approval
pub mod Calls
pub mod Candidates
pub mod Sound
pub mod Origins
pub mod Final
pub mod Drain
use gcad.Base.{
  ℕ, zero, suc, ◌-◌, Bool, true, false, not, List, [], ◌∷◌, Option, none, some, if◌then◌else◌, ltb,
  ◌==◌, length, drop,
}
use gcad.Common.{ErrorCode}
use gcad.Security.Observation.{Doubles, SecurityObservation}
use gcad.Security.Policy.{
  LocalSecurityPolicy, SecurityFinding, RemediationCandidate, CandidateApprovalState, candidate_for,
}
use mathlib.Core.Option
use gcad.Security.Telemetry
use gcad.Security.Telemetry.{TelemetryBus, PublishResult}
use gcad.Security.Correlation
use gcad.Security.Correlation.{CorrelationEngine, push_bounded}

abbrev pub max_candidates : ℕ
max_candidates = 2000

pub record SecurityPipeline : Type 0 where
  pub policy : LocalSecurityPolicy
  pub bus : TelemetryBus
  pub correlation : CorrelationEngine
  pub running : Bool
  pub candidates : List RemediationCandidate

unfoldable pub init : ℕ → LocalSecurityPolicy → SecurityPipeline
init queue_capacity policy = record {
  policy = policy;
  bus = Telemetry.init queue_capacity;
  correlation = Correlation.init policy;
  running = false;
  candidates = [];
}

-- `spawned` is whether std::thread could be made.
unfoldable pub start : Bool → SecurityPipeline → ErrorCode × SecurityPipeline
start spawned p =
    if p.running
    then (ErrorCode.ok, p)
    else if p.bus.is_closed
    then (ErrorCode.err_engine_start, p)
    else if spawned
    then (ErrorCode.ok, record p { running = true })
    else (ErrorCode.err_engine_start, p)

unfoldable pub publish :
    Doubles → SecurityObservation → SecurityPipeline → PublishResult × SecurityPipeline
publish fp o p =
    if not p.running
    then (PublishResult.closed, p)
    else let (answer, bus) = Telemetry.publish fp o p.bus in (answer, record p { bus = bus })

unfoldable pub add_candidate : Option RemediationCandidate → SecurityPipeline → SecurityPipeline
add_candidate none p = p
add_candidate (some c) p = record p { candidates = push_bounded max_candidates c p.candidates }

process_finding : Option SecurityFinding → SecurityPipeline → SecurityPipeline
unfolding add_candidate
process_finding none p = p
process_finding (some f) p = add_candidate (candidate_for f p.policy) p

unfoldable pub process : Doubles → ℕ → SecurityObservation → SecurityPipeline → SecurityPipeline
unfolding process_finding
process fp now o p =
    let (finding, correlation) = Correlation.ingest fp o now p.correlation in
    process_finding finding (record p { correlation = correlation })

-- A turn of the worker's loop: what it popped is processed; `none` is the `break`.
work_on :
    Doubles
    → ℕ
    → SecurityPipeline
    → Option (SecurityObservation × TelemetryBus)
    → Option SecurityPipeline
work_on fp now p (some (o, bus)) = some (process fp now o (record p { bus = bus }))
work_on fp now p none = if p.bus.is_closed then none else some p

unfoldable pub work : Doubles → ℕ → SecurityPipeline → Option SecurityPipeline
unfolding work_on
work fp now p = work_on fp now p (Telemetry.wait_pop p.bus)

-- `worker_loop`, with fuel and the clock's reading at each turn; `none` means that the fuel ran out.
unfoldable pub worker_loop : ℕ → Doubles → (ℕ → ℕ) → SecurityPipeline → Option SecurityPipeline
worker_loop zero fp clock p = none
worker_loop (suc fuel) fp clock p = elim (work fp (clock fuel) p) [
  | none ↦ some p
  | some p' ↦ worker_loop fuel fp clock p'
]

-- The two stores of `stop` on a running pipeline, before it waits for the worker.
unfoldable pub begin_stop : SecurityPipeline → SecurityPipeline
begin_stop p = record p { running = false; bus = Telemetry.close p.bus }

-- `stop` closes the bus and joins the worker, whose loop runs to its end.
unfoldable pub stop :
    ℕ → Doubles → (ℕ → ℕ) → SecurityPipeline → Option (ErrorCode × SecurityPipeline)
stop fuel fp clock p =
    if not p.running
    then some (ErrorCode.ok, p)
    else Option.map (λ q. (ErrorCode.ok, q)) (worker_loop fuel fp clock (begin_stop p))

unfoldable pub recent_candidates : ℕ → SecurityPipeline → List RemediationCandidate
recent_candidates count p =
    let n = length p.candidates in drop (if ltb count n then n - count else 0) p.candidates

unfoldable pub find_in : ℕ → List RemediationCandidate → Option RemediationCandidate
find_in finding_id [] = none
find_in finding_id (c ∷ cs) = if c.finding_id == finding_id then some c else find_in finding_id cs

unfoldable pub find_candidate : ℕ → SecurityPipeline → Option RemediationCandidate
unfolding find_in
find_candidate finding_id p = find_in finding_id p.candidates

abbrev pub state_value : CandidateApprovalState → ℕ
state_value CandidateApprovalState.pending_approval = 0
state_value CandidateApprovalState.approved = 1
state_value CandidateApprovalState.rejected = 2

-- The loop's body on the candidate of the finding.
unfoldable pub transition_one :
    CandidateApprovalState → RemediationCandidate → ErrorCode × RemediationCandidate
transition_one target c =
    if state_value c.approval_state == state_value target
    then (ErrorCode.ok, c)
    else if not (state_value c.approval_state == 0)
    then (ErrorCode.err_invalid_transition, c)
    else (ErrorCode.ok, record c { approval_state = target })

unfoldable pub transition_candidate :
    ℕ → CandidateApprovalState → List RemediationCandidate → ErrorCode × List RemediationCandidate
unfolding transition_one
transition_candidate finding_id target [] = (ErrorCode.err_not_found, [])
transition_candidate finding_id target (c ∷ cs) =
    let (later_code, later) = transition_candidate finding_id target cs in
    let (code, c') = transition_one target c in
    if not (c.finding_id == finding_id) then (later_code, c ∷ later) else (code, c' ∷ cs)

transition : ℕ → CandidateApprovalState → SecurityPipeline → ErrorCode × SecurityPipeline
unfolding transition_candidate
transition finding_id target p =
    let (code, candidates) = transition_candidate finding_id target p.candidates in
    (code, record p { candidates = candidates })

unfoldable pub approve_candidate : ℕ → SecurityPipeline → ErrorCode × SecurityPipeline
unfolding transition
approve_candidate finding_id p = transition finding_id CandidateApprovalState.approved p

unfoldable pub reject_candidate : ℕ → SecurityPipeline → ErrorCode × SecurityPipeline
unfolding transition
reject_candidate finding_id p = transition finding_id CandidateApprovalState.rejected p
