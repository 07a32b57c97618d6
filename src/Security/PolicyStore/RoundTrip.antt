-- ===== src/Security/PolicyStore/RoundTrip.antt =====
-- What is saved is loaded again.
use gcad.Base.{ℕ, ◌<◌, ◌≤◌, ◌≡◌, refl, ap, ◌∙◌, true, false, List, [], ◌∷◌, ◌++◌, some, arith, All}
use mathlib.Core.List.{append-nil, append_assoc}
use gcad.Base.Bytes.{Bytes, is_empty, to_string, eqb}
use gcad.Base.Lines.{lines, contains, newline, split_at, lines_cons}
use gcad.Base.Numerals.{stoi, stoi-to_string, contains-to_string}
use gcad.Security.Policy.{LocalSecurityPolicy, default_policy}
use gcad.Security.PolicyStore.{
  Loading, set_threshold, set_window, load_entry, load_parts, load_line, load_lines, loaded,
  start_loading, load, saved, prefix_lines, entry_line, critical_threshold_key, finding_window_key,
  prefix_key,
}

-- What a line of the file can hold: something, on one line.
abbrev pub IsLine : Bytes → Type 0
IsLine prefix = (is_empty prefix ≡ false) × (contains newline prefix ≡ false)

pub record IsStorable (p : LocalSecurityPolicy) : Type 0 where
  pub threshold : p.critical_threshold ≤ 100
  pub window : (0 < p.finding_window) × (p.finding_window ≤ 1440)
  pub prefixes : All IsLine p.protected_path_prefixes

lines_threshold :
    (value rest : Bytes)
    → contains newline value ≡ false
    → lines (entry_line critical_threshold_key value rest)
      ≡ (critical_threshold_key ++ (b'=' ∷ value)) ∷ lines rest
unfolding contains
lines_threshold value rest h = lines_cons (critical_threshold_key ++ (b'=' ∷ value)) rest h

lines_window :
    (value rest : Bytes)
    → contains newline value ≡ false
    → lines (entry_line finding_window_key value rest)
      ≡ (finding_window_key ++ (b'=' ∷ value)) ∷ lines rest
unfolding contains
lines_window value rest h = lines_cons (finding_window_key ++ (b'=' ∷ value)) rest h

lines_prefix :
    (value rest : Bytes)
    → contains newline value ≡ false
    → lines (entry_line prefix_key value rest) ≡ (prefix_key ++ (b'=' ∷ value)) ∷ lines rest
unfolding contains
lines_prefix value rest h = lines_cons (prefix_key ++ (b'=' ∷ value)) rest h

load_threshold :
    (value : Bytes) (l : Loading)
    → load_line (critical_threshold_key ++ (b'=' ∷ value)) l
      ≡ record l { policy = set_threshold (stoi value) l.policy }
unfolding load_line load_parts load_entry split_at eqb
load_threshold value l = refl

load_window :
    (value : Bytes) (l : Loading)
    → load_line (finding_window_key ++ (b'=' ∷ value)) l
      ≡ record l { policy = set_window (stoi value) l.policy }
unfolding load_line load_parts load_entry split_at eqb
load_window value l = refl

abbrev one_prefix : Bytes → Loading → Loading
one_prefix value l = record l { prefixes = l.prefixes ++ (value ∷ []); prefixes_seen = true }

load_prefix :
    (value : Bytes) (l : Loading)
    → is_empty value ≡ false
    → load_line (prefix_key ++ (b'=' ∷ value)) l ≡ one_prefix value l
unfolding load_line load_parts load_entry split_at eqb
load_prefix [] l h = cc
load_prefix (c ∷ cs) l h = refl

abbrev prefixes_onto : List Bytes → Loading → Loading
prefixes_onto [] l = l
prefixes_onto (prefix ∷ prefixes) l = prefixes_onto prefixes (one_prefix prefix l)

load_prefixes :
    (prefixes : List Bytes) (l : Loading)
    → All IsLine prefixes
    → load_lines (lines (prefix_lines prefixes)) l ≡ prefixes_onto prefixes l
unfolding load_lines prefix_lines lines
load_prefixes [] l h = refl
load_prefixes (prefix ∷ prefixes) l ((filled, one_line), h) =
    ap (λ ls. load_lines ls l) (lines_prefix prefix (prefix_lines prefixes) one_line)
    ∙ ap (load_lines (lines (prefix_lines prefixes))) (load_prefix prefix l filled)
    ∙ load_prefixes prefixes (one_prefix prefix l) h

loaded-prefixes_onto :
    (prefixes : List Bytes) (l : Loading)
    → l.prefixes_seen ≡ true
    → loaded (prefixes_onto prefixes l)
      ≡ record (l.policy) { protected_path_prefixes = l.prefixes ++ prefixes }
loaded-prefixes_onto [] l h = rw (h, append-nil) refl
loaded-prefixes_onto (prefix ∷ prefixes) l h =
    loaded-prefixes_onto prefixes (one_prefix prefix l) refl
    ∙ ap (λ ps. record (l.policy) { protected_path_prefixes = ps })
        (append_assoc l.prefixes (prefix ∷ []) prefixes)

-- The prefixes that stand in the file, or the default ones.
abbrev pub kept : List Bytes → List Bytes
kept [] = default_policy.protected_path_prefixes
kept (prefix ∷ prefixes) = prefix ∷ prefixes

numbers_read :
    (n m : ℕ)
    → n ≤ 100
    → 0 < m
    → m ≤ 1440
    → set_window (stoi (to_string m)) (set_threshold (stoi (to_string n)) default_policy)
      ≡ record default_policy { critical_threshold = n; finding_window = m }
unfolding set_window set_threshold
numbers_read n m h k j =
    rw (stoi-to_string n (omega arith), stoi-to_string m (omega arith)) (ground (arith, h, k, j))

after_numbers : LocalSecurityPolicy → Loading
after_numbers p = record start_loading {
  policy = record default_policy {
    critical_threshold = p.critical_threshold;
    finding_window = p.finding_window;
  };
}

loaded_after :
    (p : LocalSecurityPolicy) (prefixes : List Bytes)
    → loaded (prefixes_onto prefixes (after_numbers p))
      ≡ record p { protected_path_prefixes = kept prefixes }
unfolding after_numbers
loaded_after p [] = refl
loaded_after p (prefix ∷ prefixes) =
    loaded-prefixes_onto prefixes (one_prefix prefix (after_numbers p)) refl

-- A policy whose numbers are in range and whose prefixes are not empty and stand on one line each is
-- loaded as it was saved, but that the default prefixes stand for none.
pub load-saved :
    (p : LocalSecurityPolicy)
    → IsStorable p
    → load (some (saved p)) ≡ record p { protected_path_prefixes = kept p.protected_path_prefixes }
unfolding load saved load_lines after_numbers
load-saved p s =
    ap (λ ls. loaded (load_lines ls start_loading))
      (lines_threshold (to_string p.critical_threshold) _
          (contains-to_string newline p.critical_threshold refl)
        ∙ ap (λ ls. (critical_threshold_key ++ (b'=' ∷ to_string p.critical_threshold)) ∷ ls)
            (lines_window (to_string p.finding_window) (prefix_lines p.protected_path_prefixes)
              (contains-to_string newline p.finding_window refl)))
    ∙ ap (λ l. loaded (load_lines (lines (prefix_lines p.protected_path_prefixes)) l))
        (ap (load_line (finding_window_key ++ (b'=' ∷ to_string p.finding_window)))
            (load_threshold (to_string p.critical_threshold) start_loading)
          ∙ load_window (to_string p.finding_window) _
          ∙ ap (λ q. record start_loading { policy = q })
              (numbers_read p.critical_threshold p.finding_window s.threshold s.window.0
                s.window.1))
    ∙ ap loaded (load_prefixes p.protected_path_prefixes (after_numbers p) s.prefixes)
    ∙ loaded_after p p.protected_path_prefixes
