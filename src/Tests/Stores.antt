-- ===== src/Tests/Stores.antt =====
-- Policy files.
use gcad.Base.{◌+◌, ◌≡◌, refl, ℕ, ◌*◌, ◌^◌, Bool, true, false, map, [], ◌∷◌, ◌++◌, some, arith}
use gcad.Base.Lines.{is_whole}
use gcad.Base.Bytes.{Bytes, text}
use gcad.Security.Quarantine.{QuarantineRecord, QuarantineExecutor}
use gcad.Security.Quarantine.File.{append_ledger, rewrite_ledger, add_record, load_ledger, init}
use gcad.Security.Quarantine.File.Reload
use gcad.Security.Quarantine.File.Reload.{
  in_seconds, AreNumbered, load_ledger-append_ledger, init-rewrite_ledger,
}
use gcad.Security.Policy.{LocalSecurityPolicy, default_policy}
use gcad.Security.PolicyStore.{load, saved}
use gcad.Security.PolicyStore.Valid.{IsSound, load-IsSound}
use gcad.Security.PolicyStore.RoundTrip.{IsStorable, kept, load-saved}

abbrev empty_executor : QuarantineExecutor
empty_executor = record { vault_dir = []; policy = default_policy; ledger = []; next_id = 1 }

abbrev policy : LocalSecurityPolicy
policy = record default_policy {
  critical_threshold = 95;
  protected_path_prefixes = text "d:/data/" ∷ (text "c:/windows/" ∷ []);
}

policy-IsStorable : IsStorable policy
unfolding gcad.Base.Lines.contains
policy-IsStorable = record {
  threshold = omega arith;
  window = (omega arith, omega arith);
  prefixes = ((refl, refl), ((refl, refl), tt));
}

load-saved_example :
    load (some (saved policy))
    ≡ record policy { protected_path_prefixes = kept policy.protected_path_prefixes }
load-saved_example = load-saved policy policy-IsStorable

-- A threshold out of range, a number with a tail, and a file that ends within its first prefix.
abbrev file : Bytes
file =
    text "critical_threshold=101"
    ++ (10 ∷ (text "finding_window_minutes=7 minutes" ++ (10 ∷ text "protected_path_prefix=d:/d")))

load-IsSound_example : IsSound (load (some file))
load-IsSound_example = load-IsSound (some file)

file_test :
    load (some file)
    ≡ record default_policy { finding_window = 7; protected_path_prefixes = text "d:/d" ∷ [] }
unfolding load gcad.Base.Bytes.eqb
file_test = refl

-- Ledgers.
abbrev first_record : QuarantineRecord
first_record = record {
  id = 3;
  finding_id = 12;
  original_path = text "c:/tmp/a";
  vault_path = text "v/q_3.gcadq";
  sha256_at_quarantine = text "00ff";
  quarantined_at = 1700000000123456789;
  restored = true;
  shredded = false;
}

first_record-IsStorable : Reload.IsStorable first_record
unfolding gcad.Base.Lines.contains
first_record-IsStorable = record {
  id = omega arith;
  finding_id = omega arith;
  original_path = (refl, refl);
  vault_path = (refl, refl);
  sha256_at_quarantine = (refl, refl);
  quarantined_at = omega arith;
}

abbrev time_of : Bool × ℕ → ℕ
time_of seconds = seconds.1 * 10 ^ 9

init-rewrite_ledger_example :
    ((init time_of (text "v") default_policy (some (rewrite_ledger (first_record ∷ [])))).ledger
      ≡ map in_seconds (first_record ∷ []))
    × AreNumbered time_of
        (λ n _. refl)
        (init time_of (text "v") default_policy (some (rewrite_ledger (first_record ∷ []))))
init-rewrite_ledger_example =
    init-rewrite_ledger time_of (λ n _. refl) (first_record ∷ []) (text "v") default_policy
      (first_record-IsStorable, tt)

-- A file with one line that is no record.
abbrev old_file : Bytes
old_file = b'x' ∷ (10 ∷ [])

whole_test : is_whole old_file ≡ true
unfolding is_whole
whole_test = refl

load_ledger-append_ledger_example :
    load_ledger time_of (some (append_ledger old_file first_record)) empty_executor
    ≡ add_record time_of
        (some (in_seconds first_record))
        (load_ledger time_of (some old_file) empty_executor)
load_ledger-append_ledger_example =
    load_ledger-append_ledger time_of (λ n _. refl) old_file first_record empty_executor whole_test
      first_record-IsStorable

-- The greatest id leaves no next one.
wrap_test :
    (load_ledger time_of (some (text "18446744073709551615|1|a|b|c|0|0")) empty_executor).next_id
    ≡ 0
unfolding load_ledger gcad.Base.Numerals.to_integer
wrap_test = refl
