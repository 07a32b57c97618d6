-- ===== src/Security/Quarantine/Ledger.antt =====
-- The ledger over any sequence of calls.
use gcad.Base.{
  ◌%◌, ◌^◌, ℕ, suc, ◌+◌, ◌≤◌, ◌<◌, ◌≡◌, refl, ap, subst, arith, false, not, ◌&&◌, ◌||◌, inl, inr,
  Bool-cases, Option-cases, if_cases, length, leb, ◌∷◌, [], List, Option, none, some, All,
  All-append, length-append, ◌==◌,
}
use gcad.Common.{ErrorCode}
use gcad.Security.Policy.{RemediationCandidate}
use gcad.Security.Quarantine.{
  QuarantineRecord, QuarantineExecutor, Files, passes, quarantine, move, move_back, vault_path_of,
  record_of, find, change_first, restore, restore_record, shred, shred_record, max_ledger_records,
}

pub data Call : Type 0 where
  quarantines : ℕ → RemediationCandidate → Call
  restores shreds : ℕ → Call

-- A record of an id given out, and not both back at its place and destroyed.
pub record IsRecord (next_id : ℕ) (r : QuarantineRecord) : Type 0 where
  pub numbered : r.id < next_id
  pub one_end : (r.restored && r.shredded) ≡ false

pub record IsLedger (e : QuarantineExecutor) : Type 0 where
  pub bounded : length e.ledger ≤ max_ledger_records
  pub records : All (IsRecord e.next_id) e.ledger

later :
    (n : ℕ) (rs : List QuarantineRecord)
    → n + 1 < 2 ^ 64
    → All (IsRecord n) rs
    → All (IsRecord ((n + 1) % 2 ^ 64)) rs
later n [] h all = tt
later n (r ∷ rs) h (v, all) =
    (record { numbered = omega (arith, h, v.numbered); one_end = v.one_end }, later n rs h all)

module _ (f : QuarantineRecord → QuarantineRecord) (id : ℕ) where
  length-change_first : (rs : List QuarantineRecord) → length (change_first f id rs) ≡ length rs
  unfolding change_first
  length-change_first [] = refl
  length-change_first (r ∷ rs) =
      if_cases (λ ys. length ys ≡ length (r ∷ rs)) (r.id == id) {x = f r ∷ rs}
        {y = r ∷ change_first f id rs} (λ _. refl) (λ _. ap suc (length-change_first rs))

  change_first-All :
      (P : QuarantineRecord → Type 0) (rs : List QuarantineRecord) (r : QuarantineRecord)
      → find id rs ≡ some r
      → (P r → P (f r))
      → All P rs
      → All P (change_first f id rs)
  unfolding find change_first
  change_first-All P [] r e k all = tt
  change_first-All P (x ∷ xs) r e k (h, all) = elim (Bool-cases (x.id == id)) [
    | inl here ↦ rw here (changed x r (rw here at e) k h, all)
    | inr there ↦ rw there (h, change_first-All P xs r (rw there at e) k all)
  ]
    where
      or_else : QuarantineRecord → Option QuarantineRecord → QuarantineRecord
      or_else z none = z
      or_else z (some y) = y

      changed : (y z : QuarantineRecord) → some y ≡ some z → (P z → P (f z)) → P y → P (f y)
      changed y z s =
          subst (λ o. (P (or_else z o) → P (f (or_else z o))) → P y → P (f y)) s (λ k. k)

changed_ledger :
    (e : QuarantineExecutor) (f : QuarantineRecord → QuarantineRecord) (id : ℕ)
    (r : QuarantineRecord)
    → find id e.ledger ≡ some r
    → IsLedger e
    → (IsRecord e.next_id r → IsRecord e.next_id (f r))
    → IsLedger (record e { ledger = change_first f id e.ledger })
changed_ledger e f id r found v k = record {
  bounded = omega (arith, v.bounded, length-change_first f id e.ledger);
  records = change_first-All f id (IsRecord e.next_id) e.ledger r found k v.records;
}

module _ {W : Type 0} (fs : Files W) where
  abbrev pub call : Call → QuarantineExecutor × W → QuarantineExecutor × W
  call (Call.quarantines now candidate) (e, w) =
      let r = quarantine fs now candidate e w in (r.1, r.2)
  call (Call.restores id) (e, w) = let r = restore fs id e w in (r.1, r.2)
  call (Call.shreds id) (e, w) = let r = shred fs id e w in (r.1, r.2)

  abbrev pub run : List Call → QuarantineExecutor × W → QuarantineExecutor × W
  run [] s = s
  run (c ∷ cs) s = run cs (call c s)

  quarantine-IsLedger :
      (now : ℕ) (candidate : RemediationCandidate) (e : QuarantineExecutor) (w : W)
      → IsLedger e
      → e.next_id + 1 < 2 ^ 64
      → IsLedger (quarantine fs now candidate e w).1
  unfolding quarantine
  quarantine-IsLedger now candidate e w v fresh =
      elim (Bool-cases (passes fs e.policy candidate w)) [
        | inr denied ↦ rw denied v
        | inl pass ↦ rw pass (elim (Bool-cases (leb max_ledger_records (length e.ledger))) [
          | inl full ↦ rw full v
          | inr room ↦
              rw room (elim (Bool-cases (move fs candidate.target_path (vault_path_of fs e) w).0) [
                | inl failed ↦ rw failed (record {
                  bounded = v.bounded;
                  records = later e.next_id e.ledger fresh v.records;
                })
                | inr moved ↦ rw moved (record {
                  bounded =
                      ground
                        (arith, room, length-append e.ledger (record_of fs e candidate now w ∷ []));
                  records =
                      All-append _ e.ledger _ (later e.next_id e.ledger fresh v.records)
                        (record { numbered = omega (arith, fresh); one_end = refl }, tt);
                })
              ])
        ])
      ]

  restore_record-IsLedger :
      (id : ℕ) (r : QuarantineRecord) (e : QuarantineExecutor) (w : W)
      → find id e.ledger ≡ some r
      → IsLedger e
      → IsLedger (restore_record fs id r e w).1
  unfolding restore_record
  restore_record-IsLedger id r e w found v = elim (Bool-cases r.shredded) [
    | inl gone ↦ rw gone v
    | inr there ↦ rw there (elim (Bool-cases r.restored) [
      | inl back ↦ rw back v
      | inr away ↦
          rw away
            (elim (Bool-cases (fs.exists r.original_path w || not (fs.exists r.vault_path w))) [
              | inl taken ↦ rw taken v
              | inr free ↦ rw free (elim (Bool-cases (move_back fs r w).0) [
                | inl failed ↦ rw failed v
                | inr moved ↦ rw moved (
                    changed_ledger e _ id r found v
                      (λ h. record { numbered = h.numbered; one_end = there }))
              ])
            ])
    ])
  ]

  shred_record-IsLedger :
      (id : ℕ) (r : QuarantineRecord) (e : QuarantineExecutor) (w : W)
      → find id e.ledger ≡ some r
      → IsLedger e
      → IsLedger (shred_record fs id r e w).1
  unfolding shred_record
  shred_record-IsLedger id r e w found v = elim (Bool-cases r.shredded) [
    | inl gone ↦ rw gone v
    | inr there ↦ rw there (elim (Bool-cases r.restored) [
      | inl back ↦ rw back v
      | inr away ↦ rw away (
          changed_ledger e _ id r found v
            (λ h. record { numbered = h.numbered; one_end = ground (arith, away) }))
    ])
  ]

  restore-IsLedger :
      (id : ℕ) (e : QuarantineExecutor) (w : W) → IsLedger e → IsLedger (restore fs id e w).1
  unfolding restore
  restore-IsLedger id e w v = elim (Option-cases (find id e.ledger)) [
    | inl none_found ↦ rw (none_found, restore) v
    | inr found ↦ rw (found.1, restore) (restore_record-IsLedger id found.0 e w found.1 v)
  ]

  shred-IsLedger :
      (id : ℕ) (e : QuarantineExecutor) (w : W) → IsLedger e → IsLedger (shred fs id e w).1
  unfolding shred
  shred-IsLedger id e w v = elim (Option-cases (find id e.ledger)) [
    | inl none_found ↦ rw (none_found, shred) v
    | inr found ↦ rw (found.1, shred) (shred_record-IsLedger id found.0 e w found.1 v)
  ]

  -- An id is given out at most.
  quarantine-next-le :
      (now : ℕ) (candidate : RemediationCandidate) (e : QuarantineExecutor) (w : W)
      → (quarantine fs now candidate e w).1.next_id ≤ e.next_id + 1
  unfolding quarantine
  quarantine-next-le now candidate e w =
      if_cases Few (not (passes fs e.policy candidate w)) (λ _. omega arith)
        (λ _.
          if_cases Few (leb max_ledger_records (length e.ledger)) (λ _. omega arith)
            (λ _.
              if_cases Few (move fs candidate.target_path (vault_path_of fs e) w).0
                (λ _. omega arith) (λ _. omega arith)))
    where
      Few : ErrorCode × QuarantineExecutor × W → Type 0
      Few r = r.1.next_id ≤ e.next_id + 1

  restore-next :
      (id : ℕ) (e : QuarantineExecutor) (w : W) → (restore fs id e w).1.next_id ≡ e.next_id
  unfolding restore restore_record
  restore-next id e w = elim (Option-cases (find id e.ledger)) [
    | inl none_found ↦ rw (none_found, restore) refl
    | inr found ↦ rw (found.1, restore) (ground arith)
  ]

  shred-next : (id : ℕ) (e : QuarantineExecutor) (w : W) → (shred fs id e w).1.next_id ≡ e.next_id
  unfolding shred shred_record
  shred-next id e w = elim (Option-cases (find id e.ledger)) [
    | inl none_found ↦ rw (none_found, shred) refl
    | inr found ↦ rw (found.1, shred) (ground arith)
  ]

  -- Whatever the disk does, every sequence of calls keeps the ledger at 5000 records at most, each with an
  -- id that was given out, and none both restored and shredded, while the ids that the calls may give out
  -- stay below 2 ^ 64.
  pub run-IsLedger :
      (calls : List Call) (e : QuarantineExecutor) (w : W)
      → IsLedger e
      → e.next_id + length calls < 2 ^ 64
      → IsLedger (run calls (e, w)).0
  run-IsLedger [] e w v fresh = v
  run-IsLedger (Call.quarantines now candidate ∷ cs) e w v fresh =
      run-IsLedger cs _ _ (quarantine-IsLedger now candidate e w v (omega (arith, fresh)))
        (omega (arith, fresh, quarantine-next-le now candidate e w))
  run-IsLedger (Call.restores id ∷ cs) e w v fresh =
      run-IsLedger cs _ _ (restore-IsLedger id e w v) (omega (arith, fresh, restore-next id e w))
  run-IsLedger (Call.shreds id ∷ cs) e w v fresh =
      run-IsLedger cs _ _ (shred-IsLedger id e w v) (omega (arith, fresh, shred-next id e w))
