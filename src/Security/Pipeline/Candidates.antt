-- ===== src/Security/Pipeline/Candidates.antt =====
-- Lists of candidates: properties of each, and the order of their ids, under a bounded push and a
-- transition.
use gcad.Base.{
  ℕ, suc, ◌≤◌, ◌<◌, sym, subst, Bool-cases, inl, inr, if_cases, List, [], ◌∷◌, ◌++◌, arith, length,
  drop, ltb, ◌==◌,
}
use gcad.Security.Policy.{RemediationCandidate, CandidateApprovalState}
use gcad.Security.Correlation.{push_bounded}
use gcad.Security.Pipeline.{transition_candidate}
use gcad.Security.Pipeline.Approval.{
  transition_hit, transition_miss, transition_one-id, transition_one_cases,
}

-- A property of every candidate that holds of a new one survives `push_bounded`.
module _ (P : RemediationCandidate → Type 0) where
  abbrev pub AllCandidates : List RemediationCandidate → Type 0
  AllCandidates [] = Unit
  AllCandidates (c ∷ cs) = P c × AllCandidates cs

  pub AllCandidates-append :
      (cs : List RemediationCandidate) (c : RemediationCandidate)
      → AllCandidates cs
      → P c
      → AllCandidates (cs ++ (c ∷ []))
  AllCandidates-append [] c a h = (h, tt)
  AllCandidates-append (d ∷ cs) c a h = (a.0, AllCandidates-append cs c a.1 h)

  pub AllCandidates-drop_one :
      (cs : List RemediationCandidate) → AllCandidates cs → AllCandidates (drop 1 cs)
  AllCandidates-drop_one [] a = tt
  AllCandidates-drop_one (c ∷ cs) a = a.1

  pub AllCandidates-push :
      (bound : ℕ) (cs : List RemediationCandidate) (c : RemediationCandidate)
      → AllCandidates cs
      → P c
      → AllCandidates (push_bounded bound c cs)
  unfolding push_bounded
  AllCandidates-push bound cs c a h =
      let pushed = AllCandidates-append cs c a h in
      elim (Bool-cases (ltb bound (length (cs ++ (c ∷ []))))) [
        | inl t ↦ rw t (AllCandidates-drop_one (cs ++ (c ∷ [])) pushed)
        | inr t ↦ rw t pushed
      ]

  -- `transition_candidate` changes approval states only.
  pub AllCandidates-transition :
      ((c : RemediationCandidate) (s : CandidateApprovalState)
        → P c
        → P (record c { approval_state = s }))
      → (id : ℕ) (target : CandidateApprovalState) (cs : List RemediationCandidate)
      → AllCandidates cs
      → AllCandidates (transition_candidate id target cs).1
  AllCandidates-transition keep id target [] a = unfold transition_candidate in tt
  AllCandidates-transition keep id target (c ∷ cs) a = elim (Bool-cases (c.finding_id == id)) [
    | inl h ↦
        subst (λ r. AllCandidates r.1) (sym (transition_hit id target c cs h))
          (
            elim (transition_one_cases target c) [
              | inl e ↦ subst P (sym e) a.0
              | inr e ↦ subst P (sym e) (keep c target a.0)
            ],
            a.1,
          )
    | inr h ↦
        subst (λ r. AllCandidates r.1) (sym (transition_miss id target c cs h))
          (a.0, AllCandidates-transition keep id target cs a.1)
  ]

-- The finding ids rise strictly from `lo` and stay below `hi`.
abbrev pub IdsBetween : ℕ → ℕ → List RemediationCandidate → Type 0
IdsBetween lo hi [] = lo ≤ hi
IdsBetween lo hi (c ∷ cs) = (lo ≤ c.finding_id) × IdsBetween (suc c.finding_id) hi cs

pub IdsBetween-widen :
    (lo m n : ℕ) (cs : List RemediationCandidate) → m ≤ n → IdsBetween lo m cs → IdsBetween lo n cs
IdsBetween-widen lo m n [] h a = omega arith
IdsBetween-widen lo m n (c ∷ cs) h a = (a.0, IdsBetween-widen (suc c.finding_id) m n cs h a.1)

pub IdsBetween-append :
    (lo hi hi' : ℕ) (cs : List RemediationCandidate) (c : RemediationCandidate)
    → hi ≤ c.finding_id
    → c.finding_id < hi'
    → IdsBetween lo hi cs
    → IdsBetween lo hi' (cs ++ (c ∷ []))
IdsBetween-append lo hi hi' [] c h k a = omega arith
IdsBetween-append lo hi hi' (d ∷ cs) c h k a =
    (a.0, IdsBetween-append (suc d.finding_id) hi hi' cs c h k a.1)

pub IdsBetween-drop_one :
    (hi : ℕ) (cs : List RemediationCandidate) → IdsBetween 0 hi cs → IdsBetween 0 hi (drop 1 cs)
IdsBetween-drop_one hi [] a = a
IdsBetween-drop_one hi (c ∷ []) a = omega arith
IdsBetween-drop_one hi (c ∷ (d ∷ cs)) a = (omega arith, a.1.1)

pub IdsBetween-push :
    (bound hi hi' : ℕ) (cs : List RemediationCandidate) (c : RemediationCandidate)
    → hi ≤ c.finding_id
    → c.finding_id < hi'
    → IdsBetween 0 hi cs
    → IdsBetween 0 hi' (push_bounded bound c cs)
unfolding push_bounded
IdsBetween-push bound hi hi' cs c h k a =
    let pushed = IdsBetween-append 0 hi hi' cs c h k a in
    if_cases (IdsBetween 0 hi') (ltb bound (length (cs ++ (c ∷ []))))
      (λ _. IdsBetween-drop_one hi' (cs ++ (c ∷ [])) pushed) (λ _. pushed)

pub IdsBetween-transition :
    (lo hi id : ℕ) (target : CandidateApprovalState) (cs : List RemediationCandidate)
    → IdsBetween lo hi cs
    → IdsBetween lo hi (transition_candidate id target cs).1
IdsBetween-transition lo hi id target [] a = unfold transition_candidate in a
IdsBetween-transition lo hi id target (c ∷ cs) a = elim (Bool-cases (c.finding_id == id)) [
  | inl h ↦
      subst (λ r. IdsBetween lo hi r.1) (sym (transition_hit id target c cs h))
        (subst (λ j. (lo ≤ j) × IdsBetween (suc j) hi cs) (sym (transition_one-id target c)) a)
  | inr h ↦
      subst (λ r. IdsBetween lo hi r.1) (sym (transition_miss id target c cs h))
        (a.0, IdsBetween-transition (suc c.finding_id) hi id target cs a.1)
]
