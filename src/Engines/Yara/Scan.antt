-- ===== src/Engines/Yara/Scan.antt =====
-- src/engines/yara_engine.cpp, the condition of a rule and the scan of a buffer. The matches of a rule are
-- in the map's order, an association list's here.
use gcad.Base.{
  ℕ, ◌+◌, Bool, true, false, not, List, [], ◌∷◌, ◌++◌, none, some, if◌then◌else◌, leb, length, map,
}
use gcad.Base.Bytes.{Bytes, is_empty, eqb}
use gcad.Base.Dict.{lookup, put}
use gcad.Engines.Yara.{YaraString, ConditionOp, YaraRule, YaraMatch, find_pattern}

abbrev pub Matches : Type 0
Matches = List (Bytes × List ℕ)

-- The loop over the strings of a rule.
unfoldable pub string_matches : Bytes → List YaraString → Matches → Matches
unfolding find_pattern put
string_matches data_ [] m = m
string_matches data_ (s ∷ ss) m =
    string_matches data_ ss
      (if is_empty (find_pattern data_ s) then m else put s.identifier (find_pattern data_ s) m)

unfoldable pub is_found : Matches → YaraString → Bool
unfolding lookup
is_found matches s = elim (lookup s.identifier matches) [
  | none ↦ false
  | some offsets ↦ not (is_empty offsets)
]

unfoldable pub all_found : Matches → List YaraString → Bool
unfolding is_found
all_found matches [] = true
all_found matches (s ∷ ss) =
    let rest = all_found matches ss in if is_found matches s then rest else false

unfoldable pub any_found : Matches → List YaraString → Bool
unfolding is_found
any_found matches [] = false
any_found matches (s ∷ ss) =
    let rest = any_found matches ss in if is_found matches s then true else rest

unfoldable pub count_found : Matches → List YaraString → ℕ
unfolding is_found
count_found matches [] = 0
count_found matches (s ∷ ss) =
    let rest = count_found matches ss in if is_found matches s then rest + 1 else rest

unfoldable pub evaluate : ConditionOp → ℕ → List YaraString → Matches → Bool
unfolding all_found any_found count_found
evaluate ConditionOp.all_of_them n strings matches = all_found matches strings
evaluate ConditionOp.any_of_them n strings matches = any_found matches strings
evaluate ConditionOp.count_ge n strings matches = leb n (count_found matches strings)

unfoldable pub evaluate_condition : YaraRule → Matches → Bool
unfolding evaluate
evaluate_condition rule matches = evaluate rule.condition rule.condition_count rule.strings matches

-- The size of the first string's pattern with the identifier; there is one, so that the zero is not met.
unfoldable pub pattern_size : Bytes → List YaraString → ℕ
pattern_size id [] = 0
pattern_size id (s ∷ ss) =
    let rest = pattern_size id ss in if eqb s.identifier id then length s.pattern else rest

abbrev pub match_at : YaraRule → Bytes → ℕ → YaraMatch
match_at rule id off = record {
  rule_name = rule.name;
  matched_string_id = id;
  offset = off;
  match_length = pattern_size id rule.strings;
}

-- The loops over the map and the offsets.
unfoldable pub matches_of : YaraRule → Matches → List YaraMatch
unfolding pattern_size
matches_of rule [] = []
matches_of rule ((id, offsets) ∷ rest) = map (match_at rule id) offsets ++ matches_of rule rest

unfoldable pub scan_buffer : Bytes → List YaraRule → List YaraMatch
unfolding string_matches evaluate_condition matches_of
scan_buffer data_ [] = []
scan_buffer data_ (rule ∷ rules) =
    let rest = scan_buffer data_ rules in
    let matches = string_matches data_ rule.strings [] in
    if evaluate_condition rule matches then matches_of rule matches ++ rest else rest
