-- ===== src/Tests/Vault.antt =====
-- A disk of which every file is plain and holds "abc", and an approved candidate.
use gcad.Base.{◌≡◌, ◌<◌, ◌⊎◌, refl, true, false, [], ◌∷◌, some, arith}
use gcad.Base.Bytes.{text}
use gcad.Common.{ErrorCode}
use gcad.Security.Policy.{
  RemediationCandidate, ResponseAction, CandidateApprovalState, default_policy,
}
use gcad.Security.Quarantine.{QuarantineExecutor, Files, quarantine, max_ledger_records}
use gcad.Security.Quarantine.Approved.{IsJustified, quarantine-IsJustified}
use gcad.Security.Quarantine.Ledger.{Call, IsLedger, run, run-IsLedger}

abbrev files : Files (Unit {0})
files = record {
  is_symlink = λ p w. (false, false);
  is_regular_file = λ p w. (true, false);
  file_size = λ p w. (3, false);
  exists = λ p w. true;
  contents = λ p w. some (text "abc");
  join = λ d f. d;
  rename = λ a b w. (false, w);
  copy_file = λ a b w. (false, w);
  remove = λ p w. (false, w);
  create_parent = λ p w. w;
  overwrite = λ p n w. w;
  append_ledger = λ r w. w;
  rewrite_ledger = λ rs w. w;
}

abbrev candidate : RemediationCandidate
candidate = record {
  finding_id = 1;
  requested_action = ResponseAction.quarantine_candidate;
  approval_state = CandidateApprovalState.approved;
  target_path = text "d:/x.exe";
  expected_sha256 = [];
  rationale = [];
}

abbrev executor : QuarantineExecutor
executor = record { vault_dir = text "v"; policy = default_policy; ledger = []; next_id = 1 }

quarantine-IsJustified_example :
    (IsJustified files default_policy candidate tt
      × ((0 < max_ledger_records)
          ⊎ (quarantine files 5 candidate executor tt
              ≡ (ErrorCode.err_quarantine_full, executor, tt))))
    ⊎ (quarantine files 5 candidate executor tt ≡ (ErrorCode.err_quarantine_denied, executor, tt))
quarantine-IsJustified_example = quarantine-IsJustified files 5 candidate executor tt

quarantined_test : (quarantine files 5 candidate executor tt).0 ≡ ErrorCode.ok
unfolding quarantine gcad.Security.Quarantine.has_unsafe_delimiter
    gcad.Security.Policy.is_protected_path gcad.Security.Policy.path_starts_with
    gcad.Hash.Sha256.hash_file gcad.Hash.hex
quarantined_test = refl

run-IsLedger_example :
    IsLedger
      (run files
        (Call.quarantines 5 candidate ∷ (Call.shreds 1 ∷ (Call.restores 1 ∷ [])))
        (executor, tt)).0
run-IsLedger_example =
    run-IsLedger files (Call.quarantines 5 candidate ∷ (Call.shreds 1 ∷ (Call.restores 1 ∷ [])))
      executor tt (record { bounded = omega arith; records = tt }) (omega arith)
