-- ===== src/Security/Pipeline/Sound.antt =====
-- The pipeline's invariant, whatever is called in whatever order.
use gcad.Base.{
  ℕ, ◌≤◌, ◌≡◌, refl, ap, ◌∙◌, Bool, true, false, not, if_cases, List, [], ◌∷◌, Option, none, some,
  arith, length,
}
use gcad.Common.{ErrorCode}
use gcad.Security.Observation.{Doubles, IsIeee, SecurityObservation}
use gcad.Security.Telemetry
use gcad.Security.Telemetry.{PublishResult}
use gcad.Security.Correlation
use gcad.Security.Policy.{
  LocalSecurityPolicy, SecurityFinding, RemediationCandidate, CandidateApprovalState, candidate_for,
}
use gcad.Security.Policy.Decision.{candidate_for_iff}
use gcad.Security.Correlation.{push_bounded}
use gcad.Security.Correlation.Invariant.{
  IsGraded, ingest-IsSound, ingest-next-le, length-push_bounded,
}
use gcad.Security.Correlation.Reports.{ingest-IsReport}
use gcad.Security.Pipeline.{
  SecurityPipeline, init, start, publish, begin_stop, process, process_finding, add_candidate, work,
  work_on, approve_candidate, reject_candidate, transition, max_candidates,
}
use gcad.Security.Pipeline.Approval.{length-transition}
use gcad.Security.Pipeline.Calls.{
  Call, starts, stops, publishes, works, approves, rejects, after_work, step, run,
}
use gcad.Security.Pipeline.Candidates.{
  IdsBetween, IdsBetween-widen, IdsBetween-push, IdsBetween-transition,
}

pub record IsSound (fp : Doubles) (policy : LocalSecurityPolicy) (p : SecurityPipeline)
    : Type 0 where
  pub engine : Correlation.Invariant.IsSound fp p.correlation
  pub same_policy : p.policy ≡ policy
  pub few : length p.candidates ≤ max_candidates
  pub ids : IdsBetween 0 p.correlation.next_finding_id p.candidates
  pub open_bus : p.running ≡ true → p.bus.is_closed ≡ false

process-IsSound :
    (fp : Doubles) (policy : LocalSecurityPolicy) (now : ℕ) (o : SecurityObservation)
    (p : SecurityPipeline)
    → IsIeee fp
    → IsSound fp policy p
    → IsSound fp policy (process fp now o p)
unfolding process
process-IsSound fp policy now o p law v =
    finding-IsSound (Correlation.ingest fp o now p.correlation).0 refl
  where
    q : SecurityPipeline
    q = record p { correlation = (Correlation.ingest fp o now p.correlation).1 }

    base : IsSound fp policy q
    base = record {
      engine = ingest-IsSound fp o now p.correlation law v.engine;
      same_policy = v.same_policy;
      few = v.few;
      ids = IdsBetween-widen 0 _ _ p.candidates (ingest-next-le fp o now p.correlation) v.ids;
      open_bus = v.open_bus;
    }

    candidate-IsSound :
        (f : SecurityFinding) (r : Option RemediationCandidate)
        → (Correlation.ingest fp o now p.correlation).0 ≡ some f
        → candidate_for f p.policy ≡ r
        → IsSound fp policy (add_candidate r q)
    candidate-IsSound f none h k = unfold add_candidate in base
    candidate-IsSound f (some c) h k =
        let rep = ingest-IsReport fp o now p.correlation f law v.engine h in
        let (act, is_pending) = (candidate_for_iff f p.policy c).0 k in
        let same_id = ap (λ (d : RemediationCandidate). d.finding_id) is_pending in
        unfold add_candidate in
        record {
          engine = base.engine;
          same_policy = v.same_policy;
          few = length-push_bounded max_candidates c p.candidates v.few;
          ids =
              IdsBetween-push max_candidates p.correlation.next_finding_id
                (Correlation.ingest fp o now p.correlation).1.next_finding_id p.candidates c
                (omega (arith, same_id, rep.numbered))
                (omega (arith, same_id, rep.numbered, rep.next)) v.ids;
          open_bus = v.open_bus;
        }

    finding-IsSound :
        (r : Option SecurityFinding)
        → (Correlation.ingest fp o now p.correlation).0 ≡ r
        → IsSound fp policy (process_finding r q)
    finding-IsSound none h = unfold process_finding in base
    finding-IsSound (some f) h =
        unfold process_finding in candidate-IsSound f (candidate_for f p.policy) h refl

pub popped-IsSound :
    (fp : Doubles) (policy : LocalSecurityPolicy) (p : SecurityPipeline)
    (rest : List SecurityObservation)
    → IsSound fp policy p
    → IsSound fp policy (record p { bus = record (p.bus) { queue = rest } })
popped-IsSound fp policy p rest v = record {
  engine = v.engine;
  same_policy = v.same_policy;
  few = v.few;
  ids = v.ids;
  open_bus = v.open_bus;
}

work-IsSound :
    (fp : Doubles) (policy : LocalSecurityPolicy) (now : ℕ) (p : SecurityPipeline)
    (queue : List SecurityObservation)
    → p.bus.queue ≡ queue
    → IsIeee fp
    → IsSound fp policy p
    → IsSound fp policy (after_work p (work_on fp now p (Telemetry.pop_front p.bus queue)))
unfolding after_work work_on Telemetry.pop_front
work-IsSound fp policy now p [] e law v =
    if_cases (λ r. IsSound fp policy (after_work p r)) p.bus.is_closed (λ _. v) (λ _. v)
work-IsSound fp policy now p (o ∷ rest) e law v =
    process-IsSound fp policy now o _ law (popped-IsSound fp policy p rest v)

-- A transition keeps what does not name approval states.
transition-IsSound :
    (fp : Doubles) (policy : LocalSecurityPolicy) (id : ℕ) (target : CandidateApprovalState)
    (p : SecurityPipeline)
    → IsSound fp policy p
    → IsSound fp policy (transition id target p).1
unfolding transition
transition-IsSound fp policy id target p v = record {
  engine = v.engine;
  same_policy = v.same_policy;
  few = omega (arith, length-transition id target p.candidates, v.few);
  ids = IdsBetween-transition 0 p.correlation.next_finding_id id target p.candidates v.ids;
  open_bus = v.open_bus;
}

publish-closed :
    (fp : Doubles) (o : SecurityObservation) (bus : Telemetry.TelemetryBus)
    → (Telemetry.publish fp o bus).1.is_closed ≡ bus.is_closed
unfolding Telemetry.publish
publish-closed fp o bus = ground arith

publish-IsSound :
    (fp : Doubles) (policy : LocalSecurityPolicy) (o : SecurityObservation) (p : SecurityPipeline)
    → IsSound fp policy p
    → IsSound fp policy (publish fp o p).1
unfolding publish
publish-IsSound fp policy o p v =
    if_cases {A = PublishResult × SecurityPipeline} (λ r. IsSound fp policy r.1) (not p.running)
      (λ _. v)
      (λ r. record {
        engine = v.engine;
        same_policy = v.same_policy;
        few = v.few;
        ids = v.ids;
        open_bus = λ _. publish-closed fp o p.bus ∙ v.open_bus (ground (arith, r));
      })

start-IsSound :
    (fp : Doubles) (policy : LocalSecurityPolicy) (spawned : Bool) (p : SecurityPipeline)
    → IsSound fp policy p
    → IsSound fp policy (start spawned p).1
unfolding start
start-IsSound fp policy spawned p v =
    if_cases started p.running (λ _. v)
      λ _.
        if_cases started p.bus.is_closed (λ _. v)
          λ c.
            if_cases started spawned
              (λ _. record {
                engine = v.engine;
                same_policy = v.same_policy;
                few = v.few;
                ids = v.ids;
                open_bus = λ _. c;
              })
              (λ _. v)
  where
    started : ErrorCode × SecurityPipeline → Type 0
    started r = IsSound fp policy r.1

pub step-IsSound :
    (fp : Doubles) (policy : LocalSecurityPolicy) (p : SecurityPipeline) (c : Call)
    → IsIeee fp
    → IsSound fp policy p
    → IsSound fp policy (step fp p c)
unfolding step work Telemetry.wait_pop approve_candidate reject_candidate begin_stop
step-IsSound fp policy p (starts spawned) law v = start-IsSound fp policy spawned p v
step-IsSound fp policy p stops law v =
    if_cases (IsSound fp policy) p.running
      (λ _. record {
        engine = v.engine;
        same_policy = v.same_policy;
        few = v.few;
        ids = v.ids;
        open_bus = λ r. cc;
      })
      (λ _. v)
step-IsSound fp policy p (publishes o) law v = publish-IsSound fp policy o p v
step-IsSound fp policy p (works now) law v = work-IsSound fp policy now p p.bus.queue refl law v
step-IsSound fp policy p (approves id) law v =
    transition-IsSound fp policy id CandidateApprovalState.approved p v
step-IsSound fp policy p (rejects id) law v =
    transition-IsSound fp policy id CandidateApprovalState.rejected p v

run-IsSound :
    (fp : Doubles) (policy : LocalSecurityPolicy) (cs : List Call) (p : SecurityPipeline)
    → IsIeee fp
    → IsSound fp policy p
    → IsSound fp policy (run fp p cs)
unfolding run
run-IsSound fp policy [] p law v = v
run-IsSound fp policy (c ∷ cs) p law v =
    run-IsSound fp policy cs (step fp p c) law (step-IsSound fp policy p c law v)

pub init-IsSound :
    (fp : Doubles) (policy : LocalSecurityPolicy) (capacity : ℕ)
    → IsSound fp policy (init capacity policy)
unfolding init
init-IsSound fp policy capacity = record {
  engine = Correlation.Invariant.init-IsSound fp policy;
  same_policy = refl;
  few = omega arith;
  ids = unfold Correlation.init in omega arith;
  open_bus = λ r. cc;
}

-- On doubles that follow IEEE 754, whatever is called in whatever order on a new pipeline: there are
-- 2000 candidates at most, their ids rise strictly and are below the next one, and a running pipeline has
-- its bus open.
pub run-init-IsSound :
    (fp : Doubles) (policy : LocalSecurityPolicy) (capacity : ℕ) (cs : List Call)
    → IsIeee fp
    → IsSound fp policy (run fp (init capacity policy) cs)
run-init-IsSound fp policy capacity cs law =
    run-IsSound fp policy cs (init capacity policy) law (init-IsSound fp policy capacity)
