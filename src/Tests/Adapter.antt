-- ===== src/Tests/Adapter.antt =====
-- An event of the integrity monitor, and doubles that compare as their patterns.
use gcad.Base.{◌≡◌, refl, [], arith, true, false, ltb, leb, lt→ltb}
use gcad.Base.Bytes.{text}
use gcad.Common.{ThreatLevel, ThreatCategory, ThreatEvent}
use gcad.Security.Observation.{Doubles, valid}
use gcad.Security.LegacyAdapter.{ConfidenceRule, rules, adapt_legacy_event}
use gcad.Security.LegacyAdapter.Valid.{IsOrdered, infinity_double, adapt-valid}
use mathlib.Core.List.{Memᴰ}

abbrev pattern_doubles : Doubles
pattern_doubles = record {
  is_finite = λ c. ltb c infinity_double;
  le = leb;
  mul = λ c d. c;
  lround = λ c. 0;
}

pattern_doubles-IsOrdered : IsOrdered pattern_doubles
pattern_doubles-IsOrdered = record {
  is_finite_below = λ c h. lt→ltb c infinity_double h;
  le_patterns = λ c d _ _. refl;
}

abbrev pub changed_file : ThreatEvent
changed_file = record {
  id = 1;
  timestamp = 5;
  level = ThreatLevel.high;
  category = ThreatCategory.file_integrity_violation;
  process_id = 0;
  process_name = [];
  file_path = text "c:/x.dll";
  description = [];
  source_ip = [];
  source_port = 0;
  quarantined = false;
  rolled_back = false;
}

abbrev integrity_rule : ConfidenceRule
integrity_rule = record {
  engine_name = text "FIM";
  category = ThreatCategory.file_integrity_violation;
  confidence = 0x3fee666666666666;
  deterministic = true;
}

is_listed : Memᴰ integrity_rule rules
is_listed = Memᴰ.tail (
    Memᴰ.tail (
      Memᴰ.tail (
        Memᴰ.tail (
          Memᴰ.tail (
            Memᴰ.tail (
              Memᴰ.tail (
                Memᴰ.tail (
                  Memᴰ.tail (
                    Memᴰ.tail (
                      Memᴰ.tail (
                        Memᴰ.tail (
                          Memᴰ.tail (
                            Memᴰ.tail
                              (Memᴰ.tail (Memᴰ.tail (Memᴰ.tail (Memᴰ.head refl)))))))))))))))))

adapt-valid_example : valid pattern_doubles (adapt_legacy_event changed_file (text "Other")) ≡ true
adapt-valid_example =
    adapt-valid pattern_doubles changed_file (text "Other") pattern_doubles-IsOrdered (omega arith)
