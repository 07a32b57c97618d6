-- ===== src/Security/Pipeline/Approval.antt =====
-- `transition_candidate`, which `approve_candidate` and `reject_candidate` share, by what
-- `find_candidate` shows before and after.
use gcad.Base.{
  ℕ, ◌≡◌, ◌≢◌, ◌⊎◌, refl, Bool-cases, inl, inr, true, false, List, [], ◌∷◌, Option, none, some,
  arith, if◌then◌else◌, ◌==◌, length,
}
use gcad.Common.{ErrorCode}
use gcad.Security.Policy.{RemediationCandidate, CandidateApprovalState}
use gcad.Security.Pipeline.{
  SecurityPipeline, state_value, transition_candidate, find_in, find_candidate, approve_candidate,
  reject_candidate, transition, transition_one,
}

-- The answer and the candidate afterwards, from the candidate before: no candidate is not found;
-- the same state again is accepted; a pending one takes the new state; the opposite is refused.
abbrev pub decided :
    CandidateApprovalState → Option RemediationCandidate → ErrorCode × Option RemediationCandidate
decided target none = (ErrorCode.err_not_found, none)
decided target (some c) =
    if state_value c.approval_state == state_value target
    then (ErrorCode.ok, some c)
    else if state_value c.approval_state == 0
    then (ErrorCode.ok, some (record c { approval_state = target }))
    else (ErrorCode.err_invalid_transition, some c)

pub transition_one-id :
    (target : CandidateApprovalState) (c : RemediationCandidate)
    → (transition_one target c).1.finding_id ≡ c.finding_id
unfolding transition_one
transition_one-id target c = ground arith

transition_one-decided :
    (target : CandidateApprovalState) (c : RemediationCandidate)
    → ((transition_one target c).0, some (transition_one target c).1) ≡ decided target (some c)
unfolding transition_one
transition_one-decided target c = ground arith

pub transition_one_cases :
    (target : CandidateApprovalState) (c : RemediationCandidate)
    → ((transition_one target c).1 ≡ c)
      ⊎ ((transition_one target c).1 ≡ record c { approval_state = target })
unfolding transition_one
transition_one_cases target c = ground arith

module _ (id : ℕ) (target : CandidateApprovalState) (c : RemediationCandidate)
    (cs : List RemediationCandidate) where
  pub transition_hit :
      (c.finding_id == id) ≡ true
      → transition_candidate id target (c ∷ cs)
        ≡ ((transition_one target c).0, (transition_one target c).1 ∷ cs)
  unfolding transition_candidate
  transition_hit h = rw h

  pub transition_miss :
      (c.finding_id == id) ≡ false
      → transition_candidate id target (c ∷ cs)
        ≡ ((transition_candidate id target cs).0, c ∷ (transition_candidate id target cs).1)
  unfolding transition_candidate
  transition_miss h = rw h

  pub find_in_hit : (c.finding_id == id) ≡ true → find_in id (c ∷ cs) ≡ some c
  unfolding find_in
  find_in_hit h = rw h

  pub find_in_miss : (c.finding_id == id) ≡ false → find_in id (c ∷ cs) ≡ find_in id cs
  unfolding find_in
  find_in_miss h = rw h

pub transition_decided :
    (id : ℕ) (target : CandidateApprovalState) (cs : List RemediationCandidate)
    → ((transition_candidate id target cs).0, find_in id (transition_candidate id target cs).1)
      ≡ decided target (find_in id cs)
transition_decided id target [] = unfold transition_candidate find_in in refl
transition_decided id target (c ∷ cs) = elim (Bool-cases (c.finding_id == id)) [
  | inl h ↦
      rw
        (
          transition_hit id target c cs h,
          find_in_hit id target c cs h,
          find_in_hit id target (transition_one target c).1 cs (rw (transition_one-id target c) h),
        )
        (transition_one-decided target c)
  | inr h ↦
      rw
        (
          transition_miss id target c cs h,
          find_in_miss id target c cs h,
          find_in_miss id target c (transition_candidate id target cs).1 h,
        )
        (transition_decided id target cs)
]

find_in_cons :
    (j : ℕ) (c : RemediationCandidate) (cs ds : List RemediationCandidate)
    → find_in j cs ≡ find_in j ds
    → find_in j (c ∷ cs) ≡ find_in j (c ∷ ds)
unfolding find_in
find_in_cons j c cs ds h = rw h

pub transition_other :
    (id j : ℕ) (target : CandidateApprovalState) (cs : List RemediationCandidate)
    → j ≢ id
    → find_in j (transition_candidate id target cs).1 ≡ find_in j cs
transition_other id j target [] h = unfold transition_candidate in refl
transition_other id j target (c ∷ cs) h = elim (Bool-cases (c.finding_id == id)) [
  | inl e ↦
      rw (transition_hit id target c cs e)
        (unfold find_in in ground (arith, transition_one-id target c))
  | inr e ↦ rw (transition_miss id target c cs e) (
      find_in_cons j c (transition_candidate id target cs).1 cs (transition_other id j target cs h))
]

pub length-transition :
    (id : ℕ) (target : CandidateApprovalState) (cs : List RemediationCandidate)
    → length (transition_candidate id target cs).1 ≡ length cs
length-transition id target [] = unfold transition_candidate in refl
length-transition id target (c ∷ cs) = elim (Bool-cases (c.finding_id == id)) [
  | inl e ↦ rw (transition_hit id target c cs e)
  | inr e ↦ rw (transition_miss id target c cs e) (omega (arith, length-transition id target cs))
]

-- `approve_candidate` on every branch: the answer, and what `find_candidate` shows of the finding
-- afterwards, are those that `decided` gives for an approval; the candidate of another finding,
-- the bus, the engine and the running flag stay as they were.
pub approve_candidate_lem :
    (id j : ℕ) (p : SecurityPipeline)
    → j ≢ id
    → let (code, q) = approve_candidate id p in
      ((code, find_candidate id q) ≡ decided CandidateApprovalState.approved (find_candidate id p))
      × (find_candidate j q ≡ find_candidate j p)
      × (record q { candidates = p.candidates } ≡ p)
unfolding approve_candidate transition find_candidate
approve_candidate_lem id j p h = (
  transition_decided id CandidateApprovalState.approved p.candidates,
  transition_other id j CandidateApprovalState.approved p.candidates h,
  refl,
)

-- `reject_candidate` on every branch: the answer, and what `find_candidate` shows of the finding
-- afterwards, are those that `decided` gives for a rejection; the candidate of another finding,
-- the bus, the engine and the running flag stay as they were.
pub reject_candidate_lem :
    (id j : ℕ) (p : SecurityPipeline)
    → j ≢ id
    → let (code, q) = reject_candidate id p in
      ((code, find_candidate id q) ≡ decided CandidateApprovalState.rejected (find_candidate id p))
      × (find_candidate j q ≡ find_candidate j p)
      × (record q { candidates = p.candidates } ≡ p)
unfolding reject_candidate transition find_candidate
reject_candidate_lem id j p h = (
  transition_decided id CandidateApprovalState.rejected p.candidates,
  transition_other id j CandidateApprovalState.rejected p.candidates h,
  refl,
)
