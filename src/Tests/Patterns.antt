-- ===== src/Tests/Patterns.antt =====
-- Searches for patterns.
use gcad.Base.{◌+◌, ◌-◌, ◌≡◌, refl, ℕ, List, [], ◌∷◌, some, true, false, arith, length, All}
use gcad.Base.Bytes.{Bytes, text}
use gcad.Common.{ThreatLevel}
use gcad.Engines.Yara.{
  YaraString, ConditionOp, YaraRule, find_pattern, every_position, parse_hex_pattern,
}
use gcad.Engines.Yara.Exact.{find_pattern-every_position}
use gcad.Engines.Yara.Scan.{scan_buffer}
use gcad.Engines.Yara.Hits.{IsHit, scan_buffer-IsHit}

-- The letters of "abcd" in either case.
abbrev letters : YaraString
letters = record {
  identifier = text "$a";
  pattern = text "aBca";
  mask = 0xff ∷ (0xff ∷ (0xff ∷ (0xff ∷ [])));
  is_hex = false;
  nocase = true;
  wide = false;
  ascii = true;
}

abbrev buffer : Bytes
buffer = text "xxABCAbcaz"

find_test : find_pattern buffer letters ≡ 2 ∷ (5 ∷ [])
unfolding find_pattern
find_test = refl

find_pattern-every_position_example :
    find_pattern buffer letters
    ≡ every_position buffer letters (length buffer - length letters.pattern + 1) 0
find_pattern-every_position_example =
    find_pattern-every_position buffer letters
      (
        omega arith,
        (
          omega arith,
          (
            omega arith,
            (
              omega arith,
              (
                omega arith,
                (omega arith, (omega arith, (omega arith, (omega arith, (omega arith, tt))))),
              ),
            ),
          ),
        ),
      )
      (omega arith, (omega arith, (omega arith, (omega arith, tt)))) (omega arith) (omega arith)

hex_test :
    parse_hex_pattern (text "{ 4d 5A ?? ? }")
    ≡ some (77 ∷ (90 ∷ (0 ∷ (0 ∷ []))), 255 ∷ (255 ∷ (0 ∷ (0 ∷ []))))
unfolding parse_hex_pattern
hex_test = refl

-- Two strings with one identifier: the offset is the second one's, the size the first one's.
abbrev rule : YaraRule
rule = record {
  name = text "r";
  description = [];
  tags = [];
  strings = letters ∷ (record letters { pattern = text "z"; mask = 0xff ∷ [] } ∷ []);
  condition = ConditionOp.any_of_them;
  condition_count = 1;
  threat_level = ThreatLevel.high;
}

size_test :
    scan_buffer buffer (rule ∷ [])
    ≡ record { rule_name = text "r"; matched_string_id = text "$a"; offset = 9; match_length = 4 }
      ∷ []
unfolding scan_buffer gcad.Base.Bytes.eqb
size_test = refl

scan_buffer-IsHit_example : All (IsHit buffer (rule ∷ [])) (scan_buffer buffer (rule ∷ []))
scan_buffer-IsHit_example = scan_buffer-IsHit buffer (rule ∷ [])
