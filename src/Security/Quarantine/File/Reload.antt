-- ===== src/Security/Quarantine/File/Reload.antt =====
-- An executor that starts on a ledger's file has the records that were written to it.
use mathlib.Core.List.{append-nil, append_assoc}
use gcad.Base.{
  ℕ, ◌-◌, ◌*◌, ◌/◌, ◌^◌, ◌<◌, ◌≤◌, ◌≡◌, refl, sym, ap, subst, ◌∙◌, Bool, true, false, List, [], ◌∷◌,
  ◌++◌, some, none, arith, All, All-append, if_cases, ltb, leb, map,
}
use gcad.Base.Bytes.{Bytes, text, to_string, is_empty, eqb}
use gcad.Base.Lines.{
  lines, fields_of, contains, newline, lines_cons, is_whole, lines-append, fields_of-append,
  fields_of_one, contains-append,
}
use gcad.Base.Numerals.{to_integer-to_string, contains-to_string}
use gcad.Security.Policy.{LocalSecurityPolicy}
use gcad.Security.Quarantine.{QuarantineRecord, QuarantineExecutor}
use gcad.Security.Quarantine.File.{
  delimiter, flag, before, ledger_line, append_ledger, rewrite_ledger, stoull, stoll, record_from,
  record_of_fields, add_record, load_ledger_line, load_ledger_lines, load_ledger, init,
}

-- A field that splits neither its line nor the file.
abbrev pub IsField : Bytes → Type 0
IsField field = (contains delimiter field ≡ false) × (contains newline field ≡ false)

-- Numbers that the file's types hold, fields that split nothing, and a time before 2^33 seconds.
pub record IsStorable (r : QuarantineRecord) : Type 0 where
  pub id : r.id < 2 ^ 64 - 1
  pub finding_id : r.finding_id < 2 ^ 64
  pub original_path : IsField r.original_path
  pub vault_path : IsField r.vault_path
  pub sha256_at_quarantine : IsField r.sha256_at_quarantine
  pub quarantined_at : r.quarantined_at / 10 ^ 9 < 2 ^ 33

-- The file keeps whole seconds.
abbrev pub in_seconds : QuarantineRecord → QuarantineRecord
in_seconds r = record r { quarantined_at = r.quarantined_at / 10 ^ 9 * 10 ^ 9 }

number-IsField : (n : ℕ) → IsField (to_string n)
number-IsField n = (contains-to_string delimiter n refl, contains-to_string newline n refl)

flag-IsField : (b : Bool) → IsField (flag b)
unfolding contains
flag-IsField true = (refl, refl)
flag-IsField false = (refl, refl)

fields_of-ledger_line :
    (r : QuarantineRecord)
    → IsStorable r
    → fields_of delimiter (ledger_line r)
      ≡ to_string r.id
        ∷ (to_string r.finding_id
            ∷ (r.original_path
                ∷ (r.vault_path
                    ∷ (r.sha256_at_quarantine
                        ∷ (to_string (r.quarantined_at / 10 ^ 9)
                            ∷ (flag r.restored ∷ (flag r.shredded ∷ [])))))))
unfolding ledger_line
fields_of-ledger_line r s =
    rw
      (
        fields_of-append delimiter (to_string r.id) _ (number-IsField r.id).0,
        fields_of-append delimiter (to_string r.finding_id) _ (number-IsField r.finding_id).0,
        fields_of-append delimiter r.original_path _ s.original_path.0,
        fields_of-append delimiter r.vault_path _ s.vault_path.0,
        fields_of-append delimiter r.sha256_at_quarantine _ s.sha256_at_quarantine.0,
        fields_of-append delimiter (to_string (r.quarantined_at / 10 ^ 9)) _
            (number-IsField (r.quarantined_at / 10 ^ 9)).0,
        fields_of-append delimiter (flag r.restored) _ (flag-IsField r.restored).0,
        fields_of_one delimiter (flag r.shredded) (flag-IsField r.shredded).0,
      )
      refl

before_one_line :
    (field rest : Bytes)
    → contains newline field ≡ false
    → contains newline rest ≡ false
    → contains newline (before field rest) ≡ false
unfolding contains
before_one_line field rest h k = contains-append newline field (delimiter ∷ rest) h k

ledger_line_one_line :
    (r : QuarantineRecord) → IsStorable r → contains newline (ledger_line r) ≡ false
unfolding ledger_line
ledger_line_one_line r s = before_one_line _ _ (number-IsField r.id).1 (
    before_one_line _ _ (number-IsField r.finding_id).1 (
      before_one_line _ _ s.original_path.1 (
        before_one_line _ _ s.vault_path.1 (
          before_one_line _ _ s.sha256_at_quarantine.1 (
            before_one_line _ _ (number-IsField (r.quarantined_at / 10 ^ 9)).1
              (before_one_line _ _ (flag-IsField r.restored).1 (flag-IsField r.shredded).1))))))

stoull-to_string : (n : ℕ) → n < 2 ^ 64 → stoull (to_string n) ≡ some n
unfolding stoull
stoull-to_string n h =
    rw (stoull, to_integer-to_string n)
      (if_cases (λ r. r ≡ some n) (ltb n (2 ^ 64)) {y = none} (λ _. refl)
        (λ e. absurd (ground (arith, e, h))))

stoll-to_string : (n : ℕ) → n < 2 ^ 33 → stoll (to_string n) ≡ some (false, n)
unfolding stoll
stoll-to_string n h =
    rw (stoll, to_integer-to_string n)
      (if_cases (λ r. r ≡ some (false, n)) (leb n (2 ^ 63 - 1)) {y = none} (λ _. refl)
        (λ e. absurd (ground (arith, e, h))))

flag_read : (b : Bool) → eqb (flag b) (text "1") ≡ b
unfolding eqb
flag_read true = refl
flag_read false = refl

filled_before : (field rest : Bytes) → is_empty (before field rest) ≡ false
filled_before [] rest = refl
filled_before (c ∷ field) rest = refl

module _ (time_of : Bool × ℕ → ℕ)
    (time_of_seconds : (n : ℕ) → n < 2 ^ 33 → time_of (false, n) ≡ n * 10 ^ 9) where
  read_back :
      (r : QuarantineRecord)
      → IsStorable r
      → record_of_fields time_of (fields_of delimiter (ledger_line r)) ≡ some (in_seconds r)
  unfolding record_of_fields record_from
  read_back r s =
      rw
        (
          fields_of-ledger_line r s,
          stoull-to_string r.id (omega (arith, s.id)),
          stoull-to_string r.finding_id s.finding_id,
          stoll-to_string (r.quarantined_at / 10 ^ 9) s.quarantined_at,
          time_of_seconds (r.quarantined_at / 10 ^ 9) s.quarantined_at,
          flag_read r.restored,
          flag_read r.shredded,
        )
        refl

  line_read :
      (r : QuarantineRecord) (e : QuarantineExecutor)
      → IsStorable r
      → load_ledger_line time_of (ledger_line r) e ≡ add_record time_of (some (in_seconds r)) e
  unfolding load_ledger_line ledger_line
  line_read r e s =
      not_empty (ledger_line r) starts ∙ ap (λ o. add_record time_of o e) (read_back r s)
    where
      starts : is_empty (ledger_line r) ≡ false
      starts = filled_before (to_string r.id) _

      not_empty :
          (line : Bytes)
          → is_empty line ≡ false
          → load_ledger_line time_of line e
            ≡ add_record time_of (record_of_fields time_of (fields_of delimiter line)) e
      not_empty [] h = cc
      not_empty (c ∷ cs) h = refl

  load_lines-append :
      (xs ys : List Bytes) (e : QuarantineExecutor)
      → load_ledger_lines time_of (xs ++ ys) e
        ≡ load_ledger_lines time_of ys (load_ledger_lines time_of xs e)
  unfolding load_ledger_lines
  load_lines-append [] ys e = refl
  load_lines-append (x ∷ xs) ys e = load_lines-append xs ys (load_ledger_line time_of x e)

  -- To a file whose last line has its end, or that is empty, the appended record is one more record that
  -- a start on the file adds to the ledger, with its time in whole seconds.
  pub load_ledger-append_ledger :
      (file : Bytes) (r : QuarantineRecord) (e : QuarantineExecutor)
      → is_whole file ≡ true
      → IsStorable r
      → load_ledger time_of (some (append_ledger file r)) e
        ≡ add_record time_of (some (in_seconds r)) (load_ledger time_of (some file) e)
  unfolding load_ledger append_ledger load_ledger_lines lines
  load_ledger-append_ledger file r e whole s =
      ap (λ ls. load_ledger_lines time_of ls e)
        (lines-append file (ledger_line r ++ (newline ∷ [])) whole
          ∙ ap (λ ls. lines file ++ ls) (lines_cons (ledger_line r) [] (ledger_line_one_line r s)))
      ∙ load_lines-append (lines file) (ledger_line r ∷ []) e
      ∙ line_read r (load_ledger_lines time_of (lines file) e) s

  abbrev add_all : List QuarantineRecord → QuarantineExecutor → QuarantineExecutor
  add_all [] e = e
  add_all (r ∷ rs) e = add_all rs (add_record time_of (some (in_seconds r)) e)

  load_rewritten :
      (rs : List QuarantineRecord) (e : QuarantineExecutor)
      → All IsStorable rs
      → load_ledger time_of (some (rewrite_ledger rs)) e ≡ add_all rs e
  unfolding load_ledger rewrite_ledger load_ledger_lines lines
  load_rewritten [] e h = refl
  load_rewritten (r ∷ rs) e (s, h) =
      ap (λ ls. load_ledger_lines time_of ls e)
        (lines_cons (ledger_line r) (rewrite_ledger rs) (ledger_line_one_line r s))
      ∙ ap (load_ledger_lines time_of (lines (rewrite_ledger rs))) (line_read r e s)
      ∙ load_rewritten rs (add_record time_of (some (in_seconds r)) e) h

  ledger-add_all :
      (rs : List QuarantineRecord) (e : QuarantineExecutor)
      → (add_all rs e).ledger ≡ e.ledger ++ map in_seconds rs
  ledger-add_all [] e = rw append-nil refl
  ledger-add_all (r ∷ rs) e =
      ledger-add_all rs (add_record time_of (some (in_seconds r)) e)
      ∙ append_assoc e.ledger (in_seconds r ∷ []) (map in_seconds rs)

  -- Every id in the ledger is below the next one.
  abbrev pub AreNumbered : QuarantineExecutor → Type 0
  AreNumbered e = All (λ r. r.id < e.next_id) e.ledger

  add_record-AreNumbered :
      (r : QuarantineRecord) (e : QuarantineExecutor)
      → r.id < 2 ^ 64 - 1
      → AreNumbered e
      → AreNumbered (add_record time_of (some r) e)
  add_record-AreNumbered r e h numbered =
      All-append (λ q. q.id < next) e.ledger (r ∷ []) (raise e.ledger numbered) (own, tt)
    where
      next : ℕ
      next = (add_record time_of (some r) e).next_id

      grows : e.next_id ≤ next
      grows =
          if_cases (λ n. e.next_id ≤ n) (leb e.next_id r.id) (λ k. ground (arith, k, h))
            (λ _. omega arith)

      own : r.id < next
      own =
          if_cases (λ n. r.id < n) (leb e.next_id r.id) (λ k. ground (arith, k, h))
            (λ k. ground (arith, k))

      raise :
          (rs : List QuarantineRecord) → All (λ q. q.id < e.next_id) rs → All (λ q. q.id < next) rs
      raise [] all = tt
      raise (q ∷ rs) (k, all) = (omega (arith, k, grows), raise rs all)

  add_all-AreNumbered :
      (rs : List QuarantineRecord) (e : QuarantineExecutor)
      → All IsStorable rs
      → AreNumbered e
      → AreNumbered (add_all rs e)
  add_all-AreNumbered [] e h numbered = numbered
  add_all-AreNumbered (r ∷ rs) e (s, h) numbered =
      add_all-AreNumbered rs (add_record time_of (some (in_seconds r)) e) h
        (add_record-AreNumbered (in_seconds r) e s.id numbered)

  -- A start on the file that `rewrite_ledger` writes gives an executor exactly the records written, in
  -- their order, each with its time in whole seconds; and the next id is above theirs. The records'
  -- fields hold neither the delimiter nor a line's end, their ids are below 2 ^ 64 - 1, and their times
  -- within the clock.
  pub init-rewrite_ledger :
      (rs : List QuarantineRecord) (vault_dir : Bytes) (policy : LocalSecurityPolicy)
      → All IsStorable rs
      → ((init time_of vault_dir policy (some (rewrite_ledger rs))).ledger ≡ map in_seconds rs)
        × AreNumbered (init time_of vault_dir policy (some (rewrite_ledger rs)))
  unfolding init
  init-rewrite_ledger rs vault_dir policy h = (
    ap (λ x. x.ledger) (load_rewritten rs fresh h) ∙ ledger-add_all rs fresh,
    subst AreNumbered (sym (load_rewritten rs fresh h)) (add_all-AreNumbered rs fresh h tt),
  )
    where
      fresh : QuarantineExecutor
      fresh = record { vault_dir = vault_dir; policy = policy; ledger = []; next_id = 1 }
