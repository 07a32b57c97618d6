-- ===== src/Security/Pipeline/Final.antt =====
-- A decision on a candidate is final.
use gcad.Base.{
  ℕ, suc, ◌≤◌, ◌<◌, ◌≡◌, ◌≢◌, refl, sym, ap, subst, ◌∙◌, ◌⊎◌, inl, inr, if_cases, List, [], ◌∷◌,
  ◌++◌, Option, none, some, arith, drop, ltb, length, length-append, length-drop,
}
use gcad.Security.Observation.{Doubles, IsIeee, SecurityObservation}
use gcad.Security.Telemetry
use gcad.Security.Correlation
use gcad.Security.Correlation.{push_bounded}
use gcad.Security.Correlation.Invariant.{ingest-next-le}
use gcad.Security.Correlation.Reports.{ingest-IsReport}
use gcad.Security.Policy.{
  LocalSecurityPolicy, SecurityFinding, RemediationCandidate, CandidateApprovalState, candidate_for,
}
use gcad.Security.Policy.Decision.{candidate_for_iff}
use gcad.Security.Pipeline.{
  SecurityPipeline, max_candidates, find_in, find_candidate, transition_candidate, transition,
  process, process_finding, add_candidate, work, work_on, approve_candidate, reject_candidate,
  publish, start, begin_stop,
}
use gcad.Security.Pipeline.Approval.{transition_decided, transition_other, length-transition}
use gcad.Security.Pipeline.Calls.{
  Call, starts, stops, publishes, works, approves, rejects, after_work, step, run,
}
use gcad.Security.Pipeline.Candidates.{
  AllCandidates, AllCandidates-append, AllCandidates-drop_one, AllCandidates-transition, IdsBetween,
  IdsBetween-append,
}
use native.Mathlib.Decide.{ℕ_discrete}
use gcad.Security.Pipeline.Sound.{IsSound, popped-IsSound, step-IsSound}

find_below :
    (id lo hi : ℕ) (cs : List RemediationCandidate)
    → IdsBetween lo hi cs
    → id < lo
    → find_in id cs ≡ none
unfolding find_in
find_below id lo hi [] a h = refl
find_below id lo hi (c ∷ cs) a h = ground (arith, find_below id (suc c.finding_id) hi cs a.1)

-- The bounded list has let the candidate go: it holds as many as it may, all of later findings.
abbrev pub HasLetGo : ℕ → List RemediationCandidate → Type 0
HasLetGo id cs = (length cs ≡ max_candidates) × AllCandidates (λ d. id < d.finding_id) cs

-- The list shows `c` for the finding, or has let it go.
abbrev pub Keeps : ℕ → RemediationCandidate → List RemediationCandidate → Type 0
Keeps id c cs = (find_in id cs ≡ some c) ⊎ HasLetGo id cs

find_later :
    (id : ℕ) (cs : List RemediationCandidate)
    → AllCandidates (λ d. id < d.finding_id) cs
    → find_in id cs ≡ none
unfolding find_in
find_later id [] a = refl
find_later id (c ∷ cs) a = ground (arith, a.0, find_later id cs a.1)

later_ids :
    (id lo hi : ℕ) (cs : List RemediationCandidate)
    → id < lo
    → IdsBetween lo hi cs
    → AllCandidates (λ d. id < d.finding_id) cs
later_ids id lo hi [] h a = tt
later_ids id lo hi (c ∷ cs) h a =
    (omega (arith, h, a.0), later_ids id (suc c.finding_id) hi cs (omega (arith, h, a.0)) a.1)

find_in-append :
    (id : ℕ) (c d : RemediationCandidate) (cs : List RemediationCandidate)
    → find_in id cs ≡ some c
    → find_in id (cs ++ (d ∷ [])) ≡ some c
unfolding find_in
find_in-append id c d [] k = absurd (ground (arith, k))
find_in-append id c d (x ∷ cs) k = ground (arith, find_in-append id c d cs, k)

-- The oldest candidate leaves a list that holds one more than it may.
Keeps-drop_one :
    (id hi : ℕ) (c : RemediationCandidate) (cs : List RemediationCandidate)
    → IdsBetween 0 hi cs
    → length cs ≡ suc max_candidates
    → find_in id cs ≡ some c
    → Keeps id c (drop 1 cs)
unfolding find_in
Keeps-drop_one id hi c [] a n k = absurd (omega (arith, n))
Keeps-drop_one id hi c (x ∷ cs) a n k = elim (ℕ_discrete x.finding_id id) [
  | yes e ↦ inr (omega (arith, n), later_ids id (suc x.finding_id) hi cs (omega (arith, e)) a.1)
  | no ne ↦ inl (ground (arith, k, ne))
]

Keeps-push :
    (id hi : ℕ) (c d : RemediationCandidate) (cs : List RemediationCandidate)
    → IdsBetween 0 hi (cs ++ (d ∷ []))
    → length cs ≤ max_candidates
    → id < d.finding_id
    → Keeps id c cs
    → Keeps id c (push_bounded max_candidates d cs)
unfolding push_bounded
Keeps-push id hi c d cs a few h (inl k) =
    if_cases (Keeps id c) (ltb max_candidates (length (cs ++ (d ∷ []))))
      (λ t.
        Keeps-drop_one id hi c (cs ++ (d ∷ [])) a
          (ground (arith, t, few, length-append cs (d ∷ []))) (find_in-append id c d cs k))
      (λ _. inl (find_in-append id c d cs k))
Keeps-push id hi c d cs a few h (inr k) =
    if_cases (Keeps id c) (ltb max_candidates (length (cs ++ (d ∷ []))))
      (λ _. inr (
        omega (arith, k.0, length-append cs (d ∷ []), length-drop 1 (cs ++ (d ∷ []))),
        AllCandidates-drop_one (λ e. id < e.finding_id) (cs ++ (d ∷ []))
            (AllCandidates-append (λ e. id < e.finding_id) cs d k.1 h),
      ))
      (λ t. absurd (ground (arith, t, k.0, length-append cs (d ∷ []))))

-- A transition leaves a decided candidate as it is.
Keeps-transition :
    (id j : ℕ) (target : CandidateApprovalState) (c : RemediationCandidate)
    (cs : List RemediationCandidate)
    → c.approval_state ≢ CandidateApprovalState.pending_approval
    → Keeps id c cs
    → Keeps id c (transition_candidate j target cs).1
Keeps-transition id j target c cs decision (inr k) = inr (
  omega (arith, k.0, length-transition j target cs),
  AllCandidates-transition (λ d. id < d.finding_id) (λ d s h. h) j target cs k.1,
)
Keeps-transition id j target c cs decision (inl k) = elim (ℕ_discrete id j) [
  | yes e ↦ inl (
      subst (λ i. find_in i cs ≡ some c → find_in i (transition_candidate j target cs).1 ≡ some c)
        (sym e) (λ k'. ground (arith, transition_decided j target cs, k', decision)) k)
  | no n ↦ inl (ground (arith, transition_other j id target cs n, k))
]

-- Processing adds at most one candidate, of the id that the engine gave out.
process_candidates :
    (fp : Doubles) (now : ℕ) (o : SecurityObservation) (p : SecurityPipeline)
    → IsIeee fp
    → Correlation.Invariant.IsSound fp p.correlation
    → ((process fp now o p).candidates ≡ p.candidates)
      ⊎ ((d : RemediationCandidate) × (d.finding_id ≡ p.correlation.next_finding_id)
          × ((process fp now o p).candidates ≡ push_bounded max_candidates d p.candidates))
unfolding process
process_candidates fp now o p law v = by_finding (Correlation.ingest fp o now p.correlation).0 refl
  where
    q : SecurityPipeline
    q = record p { correlation = (Correlation.ingest fp o now p.correlation).1 }

    Added : SecurityPipeline → Type 0
    Added r =
        (r.candidates ≡ p.candidates)
        ⊎ ((d : RemediationCandidate) × (d.finding_id ≡ p.correlation.next_finding_id)
            × (r.candidates ≡ push_bounded max_candidates d p.candidates))

    by_candidate :
        (f : SecurityFinding) (r : Option RemediationCandidate)
        → (Correlation.ingest fp o now p.correlation).0 ≡ some f
        → candidate_for f p.policy ≡ r
        → Added (add_candidate r q)
    by_candidate f none h k = unfold add_candidate in inl refl
    by_candidate f (some c) h k =
        let same_id =
          ap (λ (d : RemediationCandidate). d.finding_id)
            ((candidate_for_iff f p.policy c).0 k).1 in
        unfold add_candidate in
        inr (c, same_id ∙ (ingest-IsReport fp o now p.correlation f law v h).numbered, refl)

    by_finding :
        (r : Option SecurityFinding)
        → (Correlation.ingest fp o now p.correlation).0 ≡ r
        → Added (process_finding r q)
    by_finding none h = unfold process_finding in inl refl
    by_finding (some f) h =
        unfold process_finding in by_candidate f (candidate_for f p.policy) h refl

process-next-le :
    (fp : Doubles) (now : ℕ) (o : SecurityObservation) (p : SecurityPipeline)
    → p.correlation.next_finding_id ≤ (process fp now o p).correlation.next_finding_id
unfolding process add_candidate
process-next-le fp now o p = ground (arith, ingest-next-le fp o now p.correlation)

work-next-le :
    (fp : Doubles) (now : ℕ) (p : SecurityPipeline) (queue : List SecurityObservation)
    → p.correlation.next_finding_id
      ≤ (after_work p
          (work_on fp now p (Telemetry.pop_front p.bus queue))).correlation.next_finding_id
unfolding after_work work_on Telemetry.pop_front
work-next-le fp now p [] = ground arith
work-next-le fp now p (o ∷ rest) =
    process-next-le fp now o (record p { bus = record (p.bus) { queue = rest } })

step-next-le :
    (fp : Doubles) (p : SecurityPipeline) (call : Call)
    → p.correlation.next_finding_id ≤ (step fp p call).correlation.next_finding_id
unfolding step work Telemetry.wait_pop approve_candidate reject_candidate transition
step-next-le fp p (starts spawned) = unfold start in ground arith
step-next-le fp p stops = unfold begin_stop in ground arith
step-next-le fp p (publishes o) = unfold publish in ground arith
step-next-le fp p (works now) = work-next-le fp now p p.bus.queue
step-next-le fp p (approves j) = omega arith
step-next-le fp p (rejects j) = omega arith

IdsBetween-le : (lo hi : ℕ) (cs : List RemediationCandidate) → IdsBetween lo hi cs → lo ≤ hi
IdsBetween-le lo hi [] a = a
IdsBetween-le lo hi (c ∷ cs) a = omega (arith, IdsBetween-le (suc c.finding_id) hi cs a.1)

module _ (fp : Doubles) (policy : LocalSecurityPolicy) (id : ℕ) (c : RemediationCandidate)
    (decision : c.approval_state ≢ CandidateApprovalState.pending_approval) (law : IsIeee fp) where
  process-Keeps :
      (now : ℕ) (o : SecurityObservation) (p : SecurityPipeline)
      → IsSound fp policy p
      → id < p.correlation.next_finding_id
      → Keeps id c p.candidates
      → Keeps id c (process fp now o p).candidates
  process-Keeps now o p v h k = elim (process_candidates fp now o p law v.engine) [
    | inl e ↦ subst (Keeps id c) (sym e) k
    | inr (d, new_id, e) ↦
        let room =
          IdsBetween-append 0 p.correlation.next_finding_id (suc d.finding_id) p.candidates d
            (omega (arith, new_id)) (omega arith) v.ids in
        subst (Keeps id c) (sym e) (
          Keeps-push id (suc d.finding_id) c d p.candidates room v.few (omega (arith, new_id, h)) k)
  ]

  work-Keeps :
      (now : ℕ) (p : SecurityPipeline) (queue : List SecurityObservation)
      → IsSound fp policy p
      → id < p.correlation.next_finding_id
      → Keeps id c p.candidates
      → Keeps id c (after_work p (work_on fp now p (Telemetry.pop_front p.bus queue))).candidates
  unfolding after_work work_on Telemetry.pop_front
  work-Keeps now p [] v h k =
      if_cases (λ r. Keeps id c (after_work p r).candidates) p.bus.is_closed (λ _. k) (λ _. k)
  work-Keeps now p (o ∷ rest) v h k =
      process-Keeps now o (record p { bus = record (p.bus) { queue = rest } })
        (popped-IsSound fp policy p rest v) h k

  step-Keeps :
      (p : SecurityPipeline) (call : Call)
      → IsSound fp policy p
      → id < p.correlation.next_finding_id
      → Keeps id c p.candidates
      → Keeps id c (step fp p call).candidates
  unfolding step work Telemetry.wait_pop approve_candidate reject_candidate transition
  step-Keeps p (starts spawned) v h k = unfold start in ground arith
  step-Keeps p stops v h k = unfold begin_stop in ground arith
  step-Keeps p (publishes o) v h k = unfold publish in ground arith
  step-Keeps p (works now) v h k = work-Keeps now p p.bus.queue v h k
  step-Keeps p (approves j) v h k =
      Keeps-transition id j CandidateApprovalState.approved c p.candidates decision k
  step-Keeps p (rejects j) v h k =
      Keeps-transition id j CandidateApprovalState.rejected c p.candidates decision k

  run-Keeps :
      (cs : List Call) (p : SecurityPipeline)
      → IsSound fp policy p
      → id < p.correlation.next_finding_id
      → Keeps id c p.candidates
      → Keeps id c (run fp p cs).candidates
  unfolding run
  run-Keeps [] p v h k = k
  run-Keeps (call ∷ cs) p v h k =
      run-Keeps cs (step fp p call) (step-IsSound fp policy p call law v)
        (omega (arith, step-next-le fp p call)) (step-Keeps p call v h k)

find_in-lt :
    (id lo hi : ℕ) (c : RemediationCandidate) (cs : List RemediationCandidate)
    → IdsBetween lo hi cs
    → find_in id cs ≡ some c
    → id < hi
unfolding find_in
find_in-lt id lo hi c [] a h = absurd (ground (arith, h))
find_in-lt id lo hi c (d ∷ cs) a h = ground (
  arith,
  find_in-lt id (suc d.finding_id) hi c cs a.1,
  IdsBetween-le (suc d.finding_id) hi cs a.1,
)

-- On doubles that follow IEEE 754 and a pipeline that satisfies the invariant: once a candidate is
-- approved or rejected, no sequence of calls changes it. `find_candidate` goes on to show it just as
-- it was, or the bounded list has let it go: then `find_candidate` shows nothing, and the list is full,
-- with 2000 candidates of later findings.
pub run_decided :
    (fp : Doubles) (policy : LocalSecurityPolicy) (id : ℕ) (c : RemediationCandidate)
    (p : SecurityPipeline) (cs : List Call)
    → IsIeee fp
    → IsSound fp policy p
    → find_candidate id p ≡ some c
    → c.approval_state ≢ CandidateApprovalState.pending_approval
    → (find_candidate id (run fp p cs) ≡ some c)
      ⊎ ((find_candidate id (run fp p cs) ≡ none) × HasLetGo id (run fp p cs).candidates)
unfolding find_candidate
run_decided fp policy id c p cs law v h decision =
    elim (run-Keeps fp policy id c decision law cs p v
      (find_in-lt id 0 p.correlation.next_finding_id c p.candidates v.ids h) (inl h)) [
        | inl k ↦ inl k
        | inr k ↦ inr (find_later id (run fp p cs).candidates k.1, k)
      ]
