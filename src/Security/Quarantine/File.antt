-- ===== src/Security/Quarantine/File.antt =====
-- src/security/quarantine_executor.cpp, the lines of the ledger's file. A file is its bytes; a time point
-- is nanoseconds. How a number of seconds, with its sign, becomes a time point of the clock is the
-- argument `time_of`.
pub mod Reload
use gcad.Base.{
  ℕ, ◌+◌, ◌-◌, ◌/◌, ◌%◌, ◌^◌, Bool, true, false, List, [], ◌∷◌, ◌++◌, Option, none, some,
  if◌then◌else◌, ltb, leb, length, drop,
}
use gcad.Base.Bytes.{Bytes, text, to_string, eqb}
use gcad.Base.Lines.{lines, fields_of, newline}
use gcad.Base.Numerals.{to_integer}
use gcad.Security.Policy.{LocalSecurityPolicy}
use gcad.Security.Quarantine.{QuarantineRecord, QuarantineExecutor}

abbrev pub delimiter : ℕ
delimiter = b'|'

abbrev pub flag : Bool → Bytes
flag b = if b then text "1" else text "0"

-- A field, the delimiter and what follows.
abbrev pub before : Bytes → Bytes → Bytes
before field rest = field ++ (delimiter ∷ rest)

unfoldable pub ledger_line : QuarantineRecord → Bytes
ledger_line r = before (to_string r.id) (
    before (to_string r.finding_id) (
      before r.original_path (
        before r.vault_path (
          before r.sha256_at_quarantine (
            before (to_string (r.quarantined_at / 10 ^ 9))
              (before (flag r.restored) (flag r.shredded)))))))

-- What the appending of a record, and the writing of them all, put into the file.
unfoldable pub append_ledger : Bytes → QuarantineRecord → Bytes
unfolding ledger_line
append_ledger file r = file ++ (ledger_line r ++ (newline ∷ []))

unfoldable pub rewrite_ledger : List QuarantineRecord → Bytes
unfolding ledger_line
rewrite_ledger [] = []
rewrite_ledger (r ∷ rs) = ledger_line r ++ (newline ∷ rewrite_ledger rs)

-- std::stoull, which negates a number with a minus sign, and std::stoll: none where they throw.
unfoldable pub stoull : Bytes → Option ℕ
stoull s = elim (to_integer s) [
  | none ↦ none
  | some n ↦ if ltb n.1 (2 ^ 64) then some (if n.0 then (2 ^ 64 - n.1) % 2 ^ 64 else n.1) else none
]

unfoldable pub stoll : Bytes → Option (Bool × ℕ)
stoll s = elim (to_integer s) [
  | none ↦ none
  | some n ↦ if leb n.1 (if n.0 then 2 ^ 63 else 2 ^ 63 - 1) then some n else none
]

-- A number that throws ends the line.
abbrev pub or_skip {ℓ κ} : {A : Type ℓ} {B : Type κ} → Option A → (A → Option B) → Option B
or_skip none f = none
or_skip (some a) f = f a

module _ (time_of : Bool × ℕ → ℕ) where
  unfoldable pub record_from :
      Bytes → Bytes → Bytes → Bytes → Bytes → Bytes → Bytes → Bool → Option QuarantineRecord
  unfolding stoull stoll
  record_from id finding_id original_path vault_path sha epoch restored shredded =
      or_skip (stoull id) (λ id. or_skip (stoull finding_id) (λ finding_id.
        or_skip (stoll epoch) (λ seconds. some (record {
          id = id;
          finding_id = finding_id;
          original_path = original_path;
          vault_path = vault_path;
          sha256_at_quarantine = sha;
          quarantined_at = time_of seconds;
          restored = eqb restored (text "1");
          shredded = shredded;
        }))))

  -- Seven fields, of which older ledgers have no more, or eight.
  unfoldable pub record_of_fields : List Bytes → Option QuarantineRecord
  unfolding record_from
  record_of_fields (a ∷ (b ∷ (c ∷ (d ∷ (e ∷ (f ∷ (g ∷ []))))))) = record_from a b c d e f g false
  record_of_fields (a ∷ (b ∷ (c ∷ (d ∷ (e ∷ (f ∷ (g ∷ (h ∷ [])))))))) =
      record_from a b c d e f g (eqb h (text "1"))
  record_of_fields _ = none

  abbrev pub add_record : Option QuarantineRecord → QuarantineExecutor → QuarantineExecutor
  add_record none e = e
  add_record (some r) e = record e {
    ledger = e.ledger ++ (r ∷ []);
    next_id = if leb e.next_id r.id then (r.id + 1) % 2 ^ 64 else e.next_id;
  }

  -- The body of the loop.
  unfoldable pub load_ledger_line : Bytes → QuarantineExecutor → QuarantineExecutor
  unfolding record_of_fields fields_of
  load_ledger_line [] e = e
  load_ledger_line (c ∷ cs) e = add_record (record_of_fields (fields_of delimiter (c ∷ cs))) e

  unfoldable pub load_ledger_lines : List Bytes → QuarantineExecutor → QuarantineExecutor
  unfolding load_ledger_line
  load_ledger_lines [] e = e
  load_ledger_lines (line ∷ rest) e = load_ledger_lines rest (load_ledger_line line e)

  unfoldable pub load_ledger : Option Bytes → QuarantineExecutor → QuarantineExecutor
  unfolding load_ledger_lines lines
  load_ledger none e = e
  load_ledger (some file) e = load_ledger_lines (lines file) e

-- A start: the vault, the policy and what the ledger's file holds.
unfoldable pub init :
    (Bool × ℕ → ℕ) → Bytes → LocalSecurityPolicy → Option Bytes → QuarantineExecutor
unfolding load_ledger
init time_of vault_dir policy file =
    load_ledger time_of file
      (record { vault_dir = vault_dir; policy = policy; ledger = []; next_id = 1 })

-- The last records, as many as asked for.
unfoldable pub records : ℕ → QuarantineExecutor → List QuarantineRecord
records count e = drop (length e.ledger - count) e.ledger
