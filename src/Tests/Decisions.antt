-- ===== src/Tests/Decisions.antt =====
-- The policy on a finding that its conditions let through, and on paths.
use gcad.Base.{◌≡◌, ◌↔◌, true, some, [], ◌∷◌}
use gcad.Base.Bytes.{Bytes, text}
use gcad.Common.{ThreatLevel}
use gcad.Security.Policy.{SecurityFinding, default_policy, is_protected_path, candidate_for}
use gcad.Security.Policy.Protected.{SomeBegins, is_protected_path_iff}
use gcad.Security.Policy.Decision.{IsActionable, pending, candidate_for_iff}

abbrev critical_finding : SecurityFinding
critical_finding = record {
  id = 5;
  timestamp = 0;
  level = ThreatLevel.critical;
  risk_score = 95;
  deterministic_signature = true;
  correlation_key = text "0:ab";
  file_path = text "d:/x.exe";
  sha256 = text "ab";
  rationale = text "match";
  contributing_sources = text "signature" ∷ text "yara" ∷ [];
  observation_ids = [];
}

abbrev system_path : Bytes
system_path = text "C:\\WINDOWS\\a.dll"

candidate_for_iff_example :
    (candidate_for critical_finding default_policy ≡ some (pending critical_finding)) ↔ (
      IsActionable critical_finding default_policy
      × (pending critical_finding ≡ pending critical_finding))
candidate_for_iff_example =
    candidate_for_iff critical_finding default_policy (pending critical_finding)

is_protected_path_iff_example :
    (is_protected_path system_path default_policy ≡ true)
    ↔ SomeBegins system_path default_policy.protected_path_prefixes
is_protected_path_iff_example = is_protected_path_iff system_path default_policy
