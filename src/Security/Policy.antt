-- ===== src/Security/Policy.antt =====
-- src/security/policy.cpp: the protected paths and the decision that turns a finding into a
-- candidate for quarantine.
pub mod Protected
pub mod Decision
use gcad.Base.{
  ℕ, ◌+◌, ◌-◌, Bool, true, false, not, ◌&&◌, ◌||◌, List, [], ◌∷◌, Option, none, some, if◌then◌else◌,
  ltb, leb, ◌==◌,
}
use gcad.Base.Bytes.{Bytes, text, is_empty}
use gcad.Common.{ThreatLevel, rank}

pub data ResponseAction : Type 0 where
  report_only quarantine_candidate : ResponseAction

pub data CandidateApprovalState : Type 0 where
  pending_approval approved rejected : CandidateApprovalState

pub record SecurityFinding : Type 0 where
  pub id : ℕ
  pub timestamp : ℕ
  pub level : ThreatLevel
  pub risk_score : ℕ
  pub deterministic_signature : Bool
  pub correlation_key : Bytes
  pub file_path : Bytes
  pub sha256 : Bytes
  pub rationale : Bytes
  pub contributing_sources : List Bytes
  pub observation_ids : List ℕ

pub record RemediationCandidate : Type 0 where
  pub finding_id : ℕ
  pub requested_action : ResponseAction
  pub approval_state : CandidateApprovalState
  pub target_path : Bytes
  pub expected_sha256 : Bytes
  pub rationale : Bytes

-- `finding_window` is in minutes.
pub record LocalSecurityPolicy : Type 0 where
  pub critical_threshold : ℕ
  pub finding_window : ℕ
  pub protected_path_prefixes : List Bytes

abbrev pub default_policy : LocalSecurityPolicy
default_policy = record {
  critical_threshold = 90;
  finding_window = 5;
  protected_path_prefixes = text "c:/windows/" ∷ text "c:/program files/" ∷ [];
}

unfoldable pub ascii_lower : ℕ → ℕ
ascii_lower value = if leb b'A' value && leb value b'Z' then value - b'A' + b'a' else value

unfoldable pub fold_char : ℕ → ℕ
unfolding ascii_lower
fold_char c = if c == b'\\' then b'/' else ascii_lower c

-- The size check and the loop over the prefix in one: a path that ends first is no match.
unfoldable pub path_starts_with : Bytes → Bytes → Bool
unfolding fold_char
path_starts_with path [] = true
path_starts_with [] (q ∷ prefix) = false
path_starts_with (p ∷ path) (q ∷ prefix) =
    (fold_char p == fold_char q) && path_starts_with path prefix

any_prefix : Bytes → List Bytes → Bool
any_prefix path [] = false
any_prefix path (prefix ∷ rest) = path_starts_with path prefix || any_prefix path rest

unfoldable pub is_protected_path : Bytes → LocalSecurityPolicy → Bool
unfolding any_prefix
is_protected_path path policy = any_prefix path policy.protected_path_prefixes

unfoldable pub decide : SecurityFinding → LocalSecurityPolicy → ResponseAction
decide finding policy =
    if not finding.deterministic_signature
      || not (rank finding.level == 4)
      || ltb finding.risk_score policy.critical_threshold
      || is_empty finding.file_path
      || is_protected_path finding.file_path policy
    then ResponseAction.report_only
    else ResponseAction.quarantine_candidate

unfoldable pub candidate_for : SecurityFinding → LocalSecurityPolicy → Option RemediationCandidate
candidate_for finding policy = elim (decide finding policy) [
  | ResponseAction.report_only ↦ none
  | ResponseAction.quarantine_candidate ↦ some (record {
    finding_id = finding.id;
    requested_action = ResponseAction.quarantine_candidate;
    approval_state = CandidateApprovalState.pending_approval;
    target_path = finding.file_path;
    expected_sha256 = finding.sha256;
    rationale = finding.rationale;
  })
]
