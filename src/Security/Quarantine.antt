-- ===== src/Security/Quarantine.antt =====
-- src/security/quarantine_executor.cpp and its header. What the file system does is the parameter `Files`
-- on an unknown state of the disk; an operation that can fail also returns whether it failed. The
-- file of the ledger is written through it too; what stands in that file, and a start on it, are in File.
pub mod File
pub mod Approved
pub mod Ledger
use gcad.Base.{
  ◌%◌, ◌^◌, ℕ, zero, suc, ◌+◌, ◌-◌, Bool, true, false, not, ◌&&◌, ◌||◌, List, [], ◌∷◌, ◌++◌, Option,
  none, some, if◌then◌else◌, ltb, leb, ◌==◌, length, drop,
}
use gcad.Base.Bytes.{Bytes, text, to_string, is_empty, eqb}
use gcad.Common.{ErrorCode}
use gcad.Hash.Sha256
use gcad.Security.Policy.{
  RemediationCandidate, CandidateApprovalState, LocalSecurityPolicy, is_protected_path,
}

pub record QuarantineRecord : Type 0 where
  pub id : ℕ
  pub finding_id : ℕ
  pub original_path : Bytes
  pub vault_path : Bytes
  pub sha256_at_quarantine : Bytes
  pub quarantined_at : ℕ
  pub restored : Bool
  pub shredded : Bool

pub record QuarantineExecutor : Type 0 where
  pub vault_dir : Bytes
  pub policy : LocalSecurityPolicy
  pub ledger : List QuarantineRecord
  pub next_id : ℕ

-- std::filesystem and std::fstream on the state of the disk. Where two answers are returned the second is
-- the error.
pub record Files (W : Type 0) : Type 0 where
  pub is_symlink : Bytes → W → Bool × Bool
  pub is_regular_file : Bytes → W → Bool × Bool
  pub file_size : Bytes → W → ℕ × Bool
  pub exists : Bytes → W → Bool
  pub contents : Bytes → W → Option Bytes
  pub join : Bytes → Bytes → Bytes
  pub rename : Bytes → Bytes → W → Bool × W
  pub copy_file : Bytes → Bytes → W → Bool × W
  pub remove : Bytes → W → Bool × W
  pub create_parent : Bytes → W → W
  pub overwrite : Bytes → ℕ → W → W
  pub append_ledger : QuarantineRecord → W → W
  pub rewrite_ledger : List QuarantineRecord → W → W

abbrev pub max_quarantine_bytes : ℕ
max_quarantine_bytes = 209715200

abbrev pub max_ledger_records : ℕ
max_ledger_records = 5000

unfoldable pub has_unsafe_delimiter : Bytes → Bool
has_unsafe_delimiter [] = false
has_unsafe_delimiter (c ∷ cs) = (c == b'|') || ((c == 10) || has_unsafe_delimiter cs)

abbrev pub is_approved : CandidateApprovalState → Bool
is_approved CandidateApprovalState.approved = true
is_approved _ = false

-- The checks that look at the candidate only.
abbrev pub is_allowed : LocalSecurityPolicy → RemediationCandidate → Bool
is_allowed policy candidate =
    is_approved candidate.approval_state
    && not (is_empty candidate.target_path)
    && not (has_unsafe_delimiter candidate.target_path)
    && not (is_protected_path candidate.target_path policy)

-- The first record with the id, if any.
unfoldable pub find : ℕ → List QuarantineRecord → Option QuarantineRecord
find id [] = none
find id (r ∷ rs) = if r.id == id then some r else find id rs

-- A change of the first record with the id.
unfoldable pub change_first :
    (QuarantineRecord → QuarantineRecord) → ℕ → List QuarantineRecord → List QuarantineRecord
change_first f id [] = []
change_first f id (r ∷ rs) = if r.id == id then f r ∷ rs else r ∷ change_first f id rs

module _ {W : Type 0} (fs : Files W) where
  -- The checks of the file: an error denies like a bad answer.
  abbrev pub is_plain_file : Bytes → W → Bool
  is_plain_file path w =
      (not (fs.is_symlink path w).0 && not (fs.is_symlink path w).1)
      && ((fs.is_regular_file path w).0 && not (fs.is_regular_file path w).1)
      && (not (fs.file_size path w).1
          && not ((fs.file_size path w).0 == 0)
          && leb (fs.file_size path w).0 max_quarantine_bytes)

  abbrev pub current_hash : Bytes → W → Bytes
  current_hash path w = Sha256.hash_file (fs.contents path w)

  abbrev pub is_expected : RemediationCandidate → Bytes → Bool
  is_expected candidate hash =
      not (is_empty hash)
      && (is_empty candidate.expected_sha256 || eqb hash candidate.expected_sha256)

  -- Every check before the mutex.
  abbrev pub passes : LocalSecurityPolicy → RemediationCandidate → W → Bool
  passes policy candidate w =
      is_allowed policy candidate
      && (is_plain_file candidate.target_path w
          && is_expected candidate (current_hash candidate.target_path w))

  -- The copy across volumes, undone where the original stays; whether it failed.
  abbrev pub copy_over : Bytes → Bytes → W → Bool × W
  copy_over target vault_path w =
      let copied = fs.copy_file target vault_path w in
      let removed = fs.remove target copied.1 in
      if copied.0
      then (true, copied.1)
      else if removed.0
      then (true, (fs.remove vault_path removed.1).1)
      else (false, removed.1)

  unfoldable pub move : Bytes → Bytes → W → Bool × W
  move target vault_path w =
      let renamed = fs.rename target vault_path w in
      if renamed.0 then copy_over target vault_path renamed.1 else (false, renamed.1)

  abbrev pub vault_path_of : QuarantineExecutor → Bytes
  vault_path_of e = fs.join e.vault_dir (text "q_" ++ (to_string e.next_id ++ text ".gcadq"))

  abbrev pub record_of : QuarantineExecutor → RemediationCandidate → ℕ → W → QuarantineRecord
  record_of e candidate now w = record {
    id = e.next_id;
    finding_id = candidate.finding_id;
    original_path = candidate.target_path;
    vault_path = vault_path_of e;
    sha256_at_quarantine = current_hash candidate.target_path w;
    quarantined_at = now;
    restored = false;
    shredded = false;
  }

  unfoldable pub quarantine :
      ℕ → RemediationCandidate → QuarantineExecutor → W → ErrorCode × QuarantineExecutor × W
  unfolding move
  quarantine now candidate e w =
      if not (passes e.policy candidate w)
      then (ErrorCode.err_quarantine_denied, e, w)
      else if leb max_ledger_records (length e.ledger)
      then (ErrorCode.err_quarantine_full, e, w)
      else let moved = move candidate.target_path (vault_path_of e) w in
        let rec = record_of e candidate now w in
        if moved.0
        then (
          ErrorCode.err_quarantine_denied,
          record e { next_id = (e.next_id + 1) % 2 ^ 64 },
          moved.1,
        )
        else (
          ErrorCode.ok,
          record e { next_id = (e.next_id + 1) % 2 ^ 64; ledger = e.ledger ++ (rec ∷ []) },
          fs.append_ledger rec moved.1,
        )

  -- Out of the vault: whether it failed.
  unfoldable pub move_back : QuarantineRecord → W → Bool × W
  move_back r w =
      let w = fs.create_parent r.original_path w in
      let renamed = fs.rename r.vault_path r.original_path w in
      let copied = fs.copy_file r.vault_path r.original_path renamed.1 in
      if not renamed.0
      then (false, renamed.1)
      else if copied.0
      then (true, copied.1)
      else (false, (fs.remove r.vault_path copied.1).1)

  unfoldable pub restore_record :
      ℕ → QuarantineRecord → QuarantineExecutor → W → ErrorCode × QuarantineExecutor × W
  unfolding move_back change_first
  restore_record id r e w =
      let back = move_back r w in
      let ledger = change_first (λ r. record r { restored = true }) id e.ledger in
      if r.shredded
      then (ErrorCode.err_rollback_fail, e, w)
      else if r.restored
      then (ErrorCode.ok, e, w)
      else if fs.exists r.original_path w || not (fs.exists r.vault_path w)
      then (ErrorCode.err_rollback_fail, e, w)
      else if back.0
      then (ErrorCode.err_rollback_fail, e, back.1)
      else (ErrorCode.ok, record e { ledger = ledger }, fs.rewrite_ledger ledger back.1)

  unfoldable pub restore : ℕ → QuarantineExecutor → W → ErrorCode × QuarantineExecutor × W
  unfolding find restore_record
  restore id e w = elim (find id e.ledger) [
    | none ↦ (ErrorCode.err_not_found, e, w)
    | some r ↦ restore_record id r e w
  ]

  -- The zeros over the file, where its size can be read, and its removal.
  unfoldable pub erase : Bytes → W → W
  erase path w =
      let size = fs.file_size path w in
      if fs.exists path w
      then (fs.remove path (if not size.1 && ltb 0 size.0 then fs.overwrite path size.0 w else w)).1
      else w

  unfoldable pub shred_record :
      ℕ → QuarantineRecord → QuarantineExecutor → W → ErrorCode × QuarantineExecutor × W
  unfolding erase change_first
  shred_record id r e w =
      let ledger = change_first (λ r. record r { shredded = true }) id e.ledger in
      if r.shredded
      then (ErrorCode.ok, e, w)
      else if r.restored
      then (ErrorCode.err_not_found, e, w)
      else (
        ErrorCode.ok,
        record e { ledger = ledger },
        fs.rewrite_ledger ledger (erase r.vault_path w),
      )

  unfoldable pub shred : ℕ → QuarantineExecutor → W → ErrorCode × QuarantineExecutor × W
  unfolding find shred_record
  shred id e w = elim (find id e.ledger) [
    | none ↦ (ErrorCode.err_not_found, e, w)
    | some r ↦ shred_record id r e w
  ]
