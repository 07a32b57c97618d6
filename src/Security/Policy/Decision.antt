-- ===== src/Security/Policy/Decision.antt =====
-- What `decide` and `candidate_for` ask of a finding.
use gcad.Base.{◌≤◌, ◌≡◌, ◌↔◌, true, false, [], arith, ◌≢◌, some}
use gcad.Common.{ThreatLevel}
use gcad.Security.Policy.{
  LocalSecurityPolicy, SecurityFinding, RemediationCandidate, ResponseAction,
  CandidateApprovalState, decide, candidate_for, is_protected_path,
}

-- What a finding must show before its file may be quarantined.
pub record IsActionable (f : SecurityFinding) (p : LocalSecurityPolicy) : Type 0 where
  pub certain : f.deterministic_signature ≡ true
  pub critical : f.level ≡ ThreatLevel.critical
  pub scored : p.critical_threshold ≤ f.risk_score
  pub located : f.file_path ≢ []
  pub open_path : is_protected_path f.file_path p ≡ false

-- The candidate that carries the finding's evidence and waits for approval.
abbrev pub pending : SecurityFinding → RemediationCandidate
pending f = record {
  finding_id = f.id;
  requested_action = ResponseAction.quarantine_candidate;
  approval_state = CandidateApprovalState.pending_approval;
  target_path = f.file_path;
  expected_sha256 = f.sha256;
  rationale = f.rationale;
}

-- A finding yields a candidate exactly when it is actionable, and that candidate is the pending one.
pub candidate_for_iff :
    (f : SecurityFinding) (p : LocalSecurityPolicy) (c : RemediationCandidate)
    → (candidate_for f p ≡ some c) ↔ (IsActionable f p × (c ≡ pending f))
unfolding candidate_for decide
candidate_for_iff f p c = (λ h. ground arith, λ h. ground arith)
