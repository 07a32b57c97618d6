-- ===== src/Security/LegacyAdapter/Valid.antt =====
-- What the adapter makes is a valid observation.
use gcad.Base.{
  ℕ, ◌≤◌, ◌<◌, ◌≡◌, refl, sym, ap, ◌∙◌, if_cases, arith, Bool, true, false, Option, none, some, All,
  leb, le→leb, ◌==◌, if◌then◌else◌,
}
use gcad.Base.Bytes.{Bytes, text, is_empty}
use mathlib.Core.List.{Memᴰ}
use gcad.Common.{ThreatLevel, ThreatEvent, rank, category_value}
use gcad.Security.LegacyAdapter.Table.{All-Memᴰ, find_rule-IsRow}
use gcad.Security.Observation.{Doubles, one_double, zero_double, valid}
use gcad.Security.LegacyAdapter.{
  ConfidenceRule, rules, find_rule, adapt_legacy_event, apply_rule, observation_of,
  confidence_for_level,
}

abbrev pub infinity_double : ℕ
infinity_double = 0x7ff0000000000000

-- A law of IEEE 754: the patterns below that of infinity are finite, and compare as numbers.
pub record IsOrdered (fp : Doubles) : Type 0 where
  pub is_finite_below : (c : ℕ) → c < infinity_double → fp.is_finite c ≡ true
  pub le_patterns : (c d : ℕ) → c < infinity_double → d < infinity_double → fp.le c d ≡ leb c d

-- A factor from 0 to 1.
abbrev IsUnit : ℕ → Type 0
IsUnit c = c ≤ one_double

-- A named rule with such a confidence.
abbrev IsSound : ConfidenceRule → Type 0
IsSound r = (is_empty r.engine_name ≡ false) × IsUnit r.confidence

rules-IsSound : All IsSound rules
rules-IsSound = (
  (refl, omega arith),
  (
    (refl, omega arith),
    (
      (refl, omega arith),
      (
        (refl, omega arith),
        (
          (refl, omega arith),
          (
            (refl, omega arith),
            (
              (refl, omega arith),
              (
                (refl, omega arith),
                (
                  (refl, omega arith),
                  (
                    (refl, omega arith),
                    (
                      (refl, omega arith),
                      (
                        (refl, omega arith),
                        (
                          (refl, omega arith),
                          (
                            (refl, omega arith),
                            (
                              (refl, omega arith),
                              (
                                (refl, omega arith),
                                (
                                  (refl, omega arith),
                                  (
                                    (refl, omega arith),
                                    (
                                      (refl, omega arith),
                                      ((refl, omega arith), ((refl, omega arith), tt)),
                                    ),
                                  ),
                                ),
                              ),
                            ),
                          ),
                        ),
                      ),
                    ),
                  ),
                ),
              ),
            ),
          ),
        ),
      ),
    ),
  ),
)

confidence_for_level-IsUnit : (level : ThreatLevel) → IsUnit (confidence_for_level level)
confidence_for_level-IsUnit ThreatLevel.low = omega arith
confidence_for_level-IsUnit ThreatLevel.medium = omega arith
confidence_for_level-IsUnit ThreatLevel.high = omega arith
confidence_for_level-IsUnit ThreatLevel.critical = omega arith
confidence_for_level-IsUnit ThreatLevel.safe = omega arith

-- An observation with a source, with a confidence from 0 to 1 and a level other than safe is valid.
observation_of-valid :
    (fp : Doubles) (event : ThreatEvent) (source_id : Bytes) (confidence : ℕ) (deterministic : Bool)
    → IsOrdered fp
    → is_empty source_id ≡ false
    → IsUnit confidence
    → 0 < rank event.level
    → valid fp (observation_of event source_id confidence deterministic) ≡ true
unfolding valid
observation_of-valid fp event source_id confidence deterministic o named unit level =
    rw
      (
        named,
        described,
        o.is_finite_below confidence (omega (arith, unit)),
        o.le_patterns zero_double confidence (omega arith) (omega (arith, unit)),
        o.le_patterns confidence one_double (omega (arith, unit)) (omega arith),
        le→leb 0 confidence (omega arith),
        le→leb confidence one_double unit,
        not_safe,
      )
      refl
  where
    described :
        is_empty
          (if is_empty event.description then text "Legacy engine event" else event.description)
        ≡ false
    described =
        if_cases (λ (d : Bytes). is_empty d ≡ false) (is_empty event.description) (λ _. refl)
          (λ e. e)

    not_safe : (rank event.level == 0) ≡ false
    not_safe = ground arith

apply_rule-valid :
    (fp : Doubles) (event : ThreatEvent) (engine_name : Bytes) (found : Option ConfidenceRule)
    → find_rule engine_name event.category rules ≡ found
    → IsOrdered fp
    → 0 < rank event.level
    → valid fp (apply_rule event engine_name found) ≡ true
apply_rule-valid fp event engine_name none e o h =
    observation_of-valid fp event _ (confidence_for_level event.level) false o
      (if_cases (λ s. is_empty s ≡ false) (is_empty engine_name) (λ _. refl) (λ k. k))
      (confidence_for_level-IsUnit event.level) h
apply_rule-valid fp event engine_name (some r) e o h =
    observation_of-valid fp event engine_name r.confidence r.deterministic o
      (ap is_empty (sym row.1) ∙ sound.0) sound.1 h
  where
    row :
        Memᴰ r rules
        × (r.engine_name ≡ engine_name)
        × (category_value r.category ≡ category_value event.category)
    row = find_rule-IsRow engine_name event.category rules r e

    sound : IsSound r
    sound = All-Memᴰ IsSound rules r rules-IsSound row.0

-- Where the arithmetic orders the doubles, what the adapter makes of any event above the level safe,
-- from any engine, known or not, is an observation that the pipeline takes.
pub adapt-valid :
    (fp : Doubles) (event : ThreatEvent) (engine_name : Bytes)
    → IsOrdered fp
    → 0 < rank event.level
    → valid fp (adapt_legacy_event event engine_name) ≡ true
unfolding adapt_legacy_event
adapt-valid fp event engine_name o h =
    apply_rule-valid fp event engine_name (find_rule engine_name event.category rules) refl o h
