-- ===== src/Security/Pipeline/Origins.antt =====
-- From which finding of the engine every candidate comes, whatever is called in whatever order.
use gcad.Base.{
  ℕ, ◌≤◌, ◌≡◌, refl, sym, ap, subst, ◌∙◌, if_cases, List, [], ◌∷◌, ◌++◌, Option, none, some, arith,
  length,
}
use gcad.Security.Observation.{Doubles, IsIeee, SecurityObservation}
use gcad.Security.Telemetry
use gcad.Security.Correlation.{ingest}
use gcad.Security.Correlation.Reports.{ingest-IsReport}
use gcad.Security.Policy.{
  LocalSecurityPolicy, SecurityFinding, RemediationCandidate, CandidateApprovalState, candidate_for,
}
use gcad.Security.Policy.Decision.{IsActionable, pending, candidate_for_iff}
use gcad.Security.Pipeline.{
  SecurityPipeline, init, start, publish, begin_stop, process, process_finding, add_candidate, work,
  work_on, approve_candidate, reject_candidate, transition, max_candidates,
}
use gcad.Security.Pipeline.Calls.{
  Call, starts, stops, publishes, works, approves, rejects, after_work, step, run,
}
use gcad.Security.Pipeline.Candidates.{AllCandidates, AllCandidates-push, AllCandidates-transition}
use gcad.Security.Pipeline.Sound.{IsSound, step-IsSound, init-IsSound}

-- The engine returned the finding in one of the calls on `first`: a turn of the worker, on the
-- observation that stood first in the queue, with the engine as the calls before had left it.
pub record IsReturned (fp : Doubles) (first : SecurityPipeline) (cs : List Call)
    (f : SecurityFinding) : Type 0 where
  pub before : List Call
  pub now : ℕ
  pub after : List Call
  pub calls : cs ≡ before ++ (works now ∷ after)
  pub observation : SecurityObservation
  pub rest : List SecurityObservation
  pub taken : (run fp first before).bus.queue ≡ observation ∷ rest
  pub returned : (ingest fp observation now (run fp first before).correlation).0 ≡ some f

-- The finding that a candidate stands for: returned by the engine, deterministic, critical, over the
-- threshold, on a path that the policy does not protect, and backed by two sources; the candidate
-- carries its evidence.
pub record Origin (fp : Doubles) (policy : LocalSecurityPolicy) (first : SecurityPipeline)
    (cs : List Call) (c : RemediationCandidate) : Type 0 where
  pub finding : SecurityFinding
  pub is_returned : IsReturned fp first cs finding
  pub actionable : IsActionable finding policy
  pub corroborated : 2 ≤ length finding.contributing_sources
  pub evidence : c ≡ record (pending finding) { approval_state = c.approval_state }

-- A property of candidates that does not name the approval state.
module _ (fp : Doubles) (P : RemediationCandidate → Type 0)
    (keeps : (c : RemediationCandidate) (s : CandidateApprovalState)
      → P c
      → P (record c { approval_state = s })) where
  process-All :
      (now : ℕ) (o : SecurityObservation) (p : SecurityPipeline)
      → ((f : SecurityFinding) (d : RemediationCandidate)
          → (ingest fp o now p.correlation).0 ≡ some f
          → candidate_for f p.policy ≡ some d
          → P d)
      → AllCandidates P p.candidates
      → AllCandidates P (process fp now o p).candidates
  unfolding process
  process-All now o p new all = by_finding (ingest fp o now p.correlation).0 refl
    where
      q : SecurityPipeline
      q = record p { correlation = (ingest fp o now p.correlation).1 }

      by_candidate :
          (f : SecurityFinding) (r : Option RemediationCandidate)
          → (ingest fp o now p.correlation).0 ≡ some f
          → candidate_for f p.policy ≡ r
          → AllCandidates P (add_candidate r q).candidates
      by_candidate f none h k = unfold add_candidate in all
      by_candidate f (some d) h k =
          unfold add_candidate in
          AllCandidates-push P max_candidates p.candidates d all (new f d h k)

      by_finding :
          (r : Option SecurityFinding)
          → (ingest fp o now p.correlation).0 ≡ r
          → AllCandidates P (process_finding r q).candidates
      by_finding none h = unfold process_finding in all
      by_finding (some f) h =
          unfold process_finding in by_candidate f (candidate_for f p.policy) h refl

  -- What a new candidate of a turn has to satisfy.
  abbrev New : SecurityPipeline → ℕ → List SecurityObservation → Type 0
  New p now queue =
      (o : SecurityObservation) (rest : List SecurityObservation) (f : SecurityFinding)
      (d : RemediationCandidate)
      → queue ≡ o ∷ rest
      → (ingest fp o now p.correlation).0 ≡ some f
      → candidate_for f p.policy ≡ some d
      → P d

  work-All :
      (now : ℕ) (p : SecurityPipeline) (queue : List SecurityObservation)
      → New p now queue
      → AllCandidates P p.candidates
      → AllCandidates P
          (after_work p (work_on fp now p (Telemetry.pop_front p.bus queue))).candidates
  unfolding after_work work_on Telemetry.pop_front
  work-All now p [] new all =
      if_cases (λ r. AllCandidates P (after_work p r).candidates) p.bus.is_closed (λ _. all)
        (λ _. all)
  work-All now p (o ∷ rest) new all =
      process-All now o (record p { bus = record (p.bus) { queue = rest } })
        (λ f d. new o rest f d refl) all

  step-All :
      (p : SecurityPipeline) (call : Call)
      → ((now : ℕ) → call ≡ works now → New p now p.bus.queue)
      → AllCandidates P p.candidates
      → AllCandidates P (step fp p call).candidates
  unfolding step work Telemetry.wait_pop approve_candidate reject_candidate transition
  step-All p (starts spawned) new all = unfold start in ground (arith, all)
  step-All p stops new all = unfold begin_stop in ground (arith, all)
  step-All p (publishes o) new all = unfold publish in ground (arith, all)
  step-All p (works now) new all = work-All now p p.bus.queue (new now refl) all
  step-All p (approves id) new all =
      AllCandidates-transition P keeps id CandidateApprovalState.approved p.candidates all
  step-All p (rejects id) new all =
      AllCandidates-transition P keeps id CandidateApprovalState.rejected p.candidates all

run-append :
    (fp : Doubles) (p : SecurityPipeline) (cs : List Call) (call : Call)
    → run fp p (cs ++ (call ∷ [])) ≡ step fp (run fp p cs) call
unfolding run
run-append fp p [] call = refl
run-append fp p (c ∷ cs) call = run-append fp (step fp p c) cs call

append_assoc : (xs ys zs : List Call) → (xs ++ ys) ++ zs ≡ xs ++ (ys ++ zs)
append_assoc [] ys zs = refl
append_assoc (x ∷ xs) ys zs = ap (λ l. x ∷ l) (append_assoc xs ys zs)

map_candidates :
    (P Q : RemediationCandidate → Type 0) (cs : List RemediationCandidate)
    → ((c : RemediationCandidate) → P c → Q c)
    → AllCandidates P cs
    → AllCandidates Q cs
map_candidates P Q [] k all = tt
map_candidates P Q (c ∷ cs) k (h, all) = (k c h, map_candidates P Q cs k all)

module _ (fp : Doubles) (policy : LocalSecurityPolicy) (first : SecurityPipeline)
    (law : IsIeee fp) where
  abbrev HaveOrigins : List Call → SecurityPipeline → Type 0
  HaveOrigins cs p = IsSound fp policy p × AllCandidates (Origin fp policy first cs) p.candidates

  later-Origin :
      (cs : List Call) (call : Call) (c : RemediationCandidate)
      → Origin fp policy first cs c
      → Origin fp policy first (cs ++ (call ∷ [])) c
  later-Origin cs call c h = record {
    finding = h.finding;
    is_returned = record {
      before = h.is_returned.before;
      now = h.is_returned.now;
      after = h.is_returned.after ++ (call ∷ []);
      calls =
          ap (λ l. l ++ (call ∷ [])) h.is_returned.calls
          ∙ append_assoc h.is_returned.before (works h.is_returned.now ∷ h.is_returned.after)
              (call ∷ []);
      observation = h.is_returned.observation;
      rest = h.is_returned.rest;
      taken = h.is_returned.taken;
      returned = h.is_returned.returned;
    };
    actionable = h.actionable;
    corroborated = h.corroborated;
    evidence = h.evidence;
  }

  step-HaveOrigins :
      (cs : List Call) (call : Call)
      → HaveOrigins cs (run fp first cs)
      → HaveOrigins (cs ++ (call ∷ [])) (run fp first (cs ++ (call ∷ [])))
  step-HaveOrigins cs call (v, all) =
      subst (HaveOrigins (cs ++ (call ∷ []))) (sym (run-append fp first cs call)) (
        step-IsSound fp policy (run fp first cs) call law v,
        step-All fp (Origin fp policy first (cs ++ (call ∷ [])))
            (λ c s h. record {
              finding = h.finding;
              is_returned = h.is_returned;
              actionable = h.actionable;
              corroborated = h.corroborated;
              evidence =
                  ap (λ (d : RemediationCandidate). record d { approval_state = s }) h.evidence;
            })
            (run fp first cs) call new
            (map_candidates (Origin fp policy first cs) _ (run fp first cs).candidates
              (later-Origin cs call) all),
      )
    where
      new :
          (now : ℕ)
          → call ≡ works now
          → (o : SecurityObservation) (rest : List SecurityObservation) (f : SecurityFinding)
            (d : RemediationCandidate)
          → (run fp first cs).bus.queue ≡ o ∷ rest
          → (ingest fp o now (run fp first cs).correlation).0 ≡ some f
          → candidate_for f (run fp first cs).policy ≡ some d
          → Origin fp policy first (cs ++ (call ∷ [])) d
      new now turn o rest f d taken returned decided =
          let rep =
            ingest-IsReport fp o now (run fp first cs).correlation f law v.engine returned in
          let (act, is_pending) = (candidate_for_iff f (run fp first cs).policy d).0 decided in
          record {
            finding = f;
            is_returned = record {
              before = cs;
              now = now;
              after = [];
              calls = ap (λ c. cs ++ (c ∷ [])) turn;
              observation = o;
              rest = rest;
              taken = taken;
              returned = returned;
            };
            actionable = subst (IsActionable f) v.same_policy act;
            corroborated = rep.graded.corroborated act.critical;
            evidence = ground (arith, is_pending);
          }

  run-HaveOrigins :
      (cs todo : List Call)
      → HaveOrigins cs (run fp first cs)
      → HaveOrigins (cs ++ todo) (run fp first (cs ++ todo))
  run-HaveOrigins cs [] h = subst (λ l. HaveOrigins l (run fp first l)) (sym (append_nil cs)) h
    where
      append_nil : (xs : List Call) → xs ++ [] ≡ xs
      append_nil [] = refl
      append_nil (x ∷ xs) = ap (λ l. x ∷ l) (append_nil xs)
  run-HaveOrigins cs (call ∷ todo) h =
      subst (λ l. HaveOrigins l (run fp first l)) (append_assoc cs (call ∷ []) todo)
        (run-HaveOrigins (cs ++ (call ∷ [])) todo (step-HaveOrigins cs call h))

-- On doubles that follow IEEE 754, whatever is called in whatever order on a new pipeline: there are
-- 2000 candidates at most, each of a finding that the correlation engine returned in one of the
-- worker's turns and that was deterministic, critical, at or above the threshold, off the protected
-- paths and backed by two sources at least, with that finding's path, hash and rationale; their ids rise
-- strictly and are below the next one; and a running pipeline has its bus open.
pub run-init-HaveOrigins :
    (fp : Doubles) (policy : LocalSecurityPolicy) (capacity : ℕ) (cs : List Call)
    → IsIeee fp
    → IsSound fp policy (run fp (init capacity policy) cs)
      × AllCandidates
          (Origin fp policy (init capacity policy) cs)
          (run fp (init capacity policy) cs).candidates
run-init-HaveOrigins fp policy capacity cs law =
    run-HaveOrigins fp policy (init capacity policy) law [] cs
      (unfold run init in (init-IsSound fp policy capacity, tt))
