-- ===== src/Security/Quarantine/Approved.antt =====
-- What `quarantine` does to whom.
use gcad.Base.{
  ℕ, ◌≤◌, ◌<◌, ◌≡◌, refl, arith, Bool, true, false, ◌||◌, ◌⊎◌, inl, inr, Bool-cases, length, leb,
}
use gcad.Base.Bytes.{is_empty, eqb, eqb→eq}
use gcad.Common.{ErrorCode}
use gcad.Security.Policy.{
  RemediationCandidate, CandidateApprovalState, LocalSecurityPolicy, is_protected_path,
}
use gcad.Security.Quarantine.{
  QuarantineExecutor, Files, passes, is_approved, current_hash, quarantine, max_quarantine_bytes,
  max_ledger_records,
}

module _ {W : Type 0} (fs : Files W) where
  -- What allows a quarantine: an approved candidate, whose file is no link, of a size above 0 and up to 200
  -- MiB, not protected by the policy, and has the hash seen at the detection, if one was.
  pub record IsJustified (policy : LocalSecurityPolicy) (candidate : RemediationCandidate) (w : W)
      : Type 0 where
    pub approved : candidate.approval_state ≡ CandidateApprovalState.approved
    pub not_protected : is_protected_path candidate.target_path policy ≡ false
    pub not_link : (fs.is_symlink candidate.target_path w).0 ≡ false
    pub regular : (fs.is_regular_file candidate.target_path w).0 ≡ true
    pub some_bytes : 0 < (fs.file_size candidate.target_path w).0
    pub not_large : (fs.file_size candidate.target_path w).0 ≤ max_quarantine_bytes
    pub hashed : is_empty (current_hash fs candidate.target_path w) ≡ false
    pub unchanged :
        (is_empty candidate.expected_sha256 ≡ true)
        ⊎ (current_hash fs candidate.target_path w ≡ candidate.expected_sha256)

  either : (a b : Bool) → (a || b) ≡ true → (a ≡ true) ⊎ (b ≡ true)
  either true b h = inl refl
  either false b h = inr h

  is_approved_lem :
      (s : CandidateApprovalState) → is_approved s ≡ true → s ≡ CandidateApprovalState.approved
  is_approved_lem CandidateApprovalState.approved h = refl
  is_approved_lem CandidateApprovalState.pending_approval h = cc
  is_approved_lem CandidateApprovalState.rejected h = cc

  passes-IsJustified :
      (policy : LocalSecurityPolicy) (candidate : RemediationCandidate) (w : W)
      → passes fs policy candidate w ≡ true
      → IsJustified policy candidate w
  passes-IsJustified policy candidate w h = record {
    approved = is_approved_lem candidate.approval_state (ground (arith, h));
    not_protected = ground (arith, h);
    not_link = ground (arith, h);
    regular = ground (arith, h);
    some_bytes = ground (arith, h);
    not_large = ground (arith, h);
    hashed = ground (arith, h);
    unchanged =
        elim (either (is_empty candidate.expected_sha256)
          (eqb (current_hash fs candidate.target_path w) candidate.expected_sha256)
          (ground (arith, h))) [ inl e ↦ inl e | inr e ↦ inr (eqb→eq _ _ e) ];
  }

  -- Of what `quarantine` returns: either the candidate was justified by the executor's own policy and by
  -- the file as it is at the call, and the ledger has room, unless ERR_QUARANTINE_FULL is returned and
  -- nothing is changed; or the candidate is denied, and neither the disk nor the executor is changed.
  pub quarantine-IsJustified :
      (now : ℕ) (candidate : RemediationCandidate) (e : QuarantineExecutor) (w : W)
      → (IsJustified e.policy candidate w
          × ((length e.ledger < max_ledger_records)
              ⊎ (quarantine fs now candidate e w ≡ (ErrorCode.err_quarantine_full, e, w))))
        ⊎ (quarantine fs now candidate e w ≡ (ErrorCode.err_quarantine_denied, e, w))
  unfolding quarantine
  quarantine-IsJustified now candidate e w = elim (Bool-cases (passes fs e.policy candidate w)) [
    | inr denied ↦ inr (rw denied refl)
    | inl pass ↦ inl (
      passes-IsJustified e.policy candidate w pass,
      elim (Bool-cases (leb max_ledger_records (length e.ledger))) [
        | inl full ↦ inr (rw (pass, full) refl)
        | inr room ↦ inl (ground (arith, room))
      ],
    )
  ]
