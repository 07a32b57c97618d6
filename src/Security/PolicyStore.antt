-- ===== src/Security/PolicyStore.antt =====
-- src/security/policy_store.cpp: the policy's text file. A file is its bytes; one that cannot be opened is
-- `none`. The creation of the parent directory is left out.
pub mod Valid
pub mod RoundTrip
use gcad.Base.{
  ℕ, ◌*◌, Bool, true, false, not, ◌&&◌, ◌||◌, List, [], ◌∷◌, ◌++◌, Option, none, some,
  if◌then◌else◌, ltb, leb, ◌==◌,
}
use gcad.Base.Bytes.{Bytes, text, to_string, is_empty, eqb}
use gcad.Base.Lines.{lines, split_at, newline}
use gcad.Base.Numerals.{stoi}
use gcad.Common.{ErrorCode}
use gcad.Security.Policy.{LocalSecurityPolicy, default_policy}

abbrev pub max_finding_window_minutes : ℕ
max_finding_window_minutes = 24 * 60

abbrev pub critical_threshold_key : Bytes
critical_threshold_key = text "critical_threshold"

abbrev pub finding_window_key : Bytes
finding_window_key = text "finding_window_minutes"

abbrev pub prefix_key : Bytes
prefix_key = text "protected_path_prefix"

-- The variables of the loop.
pub record Loading : Type 0 where
  pub policy : LocalSecurityPolicy
  pub prefixes : List Bytes
  pub prefixes_seen : Bool

-- A value in range is kept; one that std::stoi refuses leaves the field.
unfoldable pub set_threshold : Option (Bool × ℕ) → LocalSecurityPolicy → LocalSecurityPolicy
set_threshold none policy = policy
set_threshold (some (negative, v)) policy =
    if (not negative || (v == 0)) && leb v 100
    then record policy { critical_threshold = v }
    else policy

unfoldable pub set_window : Option (Bool × ℕ) → LocalSecurityPolicy → LocalSecurityPolicy
set_window none policy = policy
set_window (some (negative, v)) policy =
    if (not negative && ltb 0 v) && leb v max_finding_window_minutes
    then record policy { finding_window = v }
    else policy

-- A key and its value.
unfoldable pub load_entry : Bytes → Bytes → Loading → Loading
unfolding set_threshold set_window stoi
load_entry key value l =
    if eqb key critical_threshold_key
    then record l { policy = set_threshold (stoi value) l.policy }
    else if eqb key finding_window_key
    then record l { policy = set_window (stoi value) l.policy }
    else if eqb key prefix_key && not (is_empty value)
    then record l { prefixes = l.prefixes ++ (value ∷ []); prefixes_seen = true }
    else l

-- The parts of a line, if it has a key.
unfoldable pub load_parts : Option (Bytes × Bytes) → Loading → Loading
unfolding load_entry
load_parts none l = l
load_parts (some (key, value)) l = if is_empty key then l else load_entry key value l

-- The body of the loop.
unfoldable pub load_line : Bytes → Loading → Loading
unfolding load_parts split_at
load_line [] l = l
load_line (c ∷ cs) l = if c == b'#' then l else load_parts (split_at b'=' (c ∷ cs)) l

unfoldable pub load_lines : List Bytes → Loading → Loading
unfolding load_line
load_lines [] l = l
load_lines (line ∷ rest) l = load_lines rest (load_line line l)

abbrev pub loaded : Loading → LocalSecurityPolicy
loaded l =
    if l.prefixes_seen then record (l.policy) { protected_path_prefixes = l.prefixes } else l.policy

abbrev pub start_loading : Loading
start_loading = record { policy = default_policy; prefixes = []; prefixes_seen = false }

unfoldable pub load : Option Bytes → LocalSecurityPolicy
unfolding load_lines lines
load none = default_policy
load (some file) = loaded (load_lines (lines file) start_loading)

-- `key=value` and the line's end, before what follows.
abbrev pub entry_line : Bytes → Bytes → Bytes → Bytes
entry_line key value rest = key ++ (b'=' ∷ (value ++ (newline ∷ rest)))

unfoldable pub prefix_lines : List Bytes → Bytes
prefix_lines [] = []
prefix_lines (prefix ∷ prefixes) = entry_line prefix_key prefix (prefix_lines prefixes)

unfoldable pub saved : LocalSecurityPolicy → Bytes
unfolding prefix_lines
saved policy = entry_line critical_threshold_key (to_string policy.critical_threshold) (
    entry_line finding_window_key (to_string policy.finding_window)
      (prefix_lines policy.protected_path_prefixes))

-- Whether the file can be opened, and whether everything was written; the file afterwards, where it was.
unfoldable pub save : Bool → Bool → LocalSecurityPolicy → ErrorCode × Option Bytes
unfolding saved
save opened good policy = if not opened then (ErrorCode.err_scan_io, none) else (
  if good then ErrorCode.ok else ErrorCode.err_scan_io,
  if good then some (saved policy) else none,
)
