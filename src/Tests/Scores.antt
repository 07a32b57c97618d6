-- ===== src/Tests/Scores.antt =====
-- Scores of states with one source and two, and the table of targets.
use gcad.Base.{refl, true, List, [], ◌∷◌}
use gcad.Base.Bytes.{Bytes, text}
use gcad.Common.{ThreatLevel}
use gcad.Security.Observation.{one_double}
use gcad.Security.Correlation.{ActiveState, SourceState, no_state}
use mathlib.Core.List.{Perm, Permᴰ}

abbrev certain : SourceState
certain = record {
  confidence = one_double;
  suggested_level = ThreatLevel.critical;
  deterministic = true;
  last_seen = 7;
}

abbrev two_sources : ActiveState
two_sources = record no_state {
  sources = (text "signature", certain) ∷ (text "yara", certain) ∷ [];
}

abbrev other_order : ActiveState
other_order = record no_state {
  sources = (text "yara", certain) ∷ (text "signature", certain) ∷ [];
}

swapped : Perm two_sources.sources other_order.sources
swapped = ∣ Permᴰ.swap refl refl ∣₁

abbrev targets : List (Bytes × ActiveState)
targets =
    (text "a", record no_state { last_seen = 9 })
    ∷ (text "b", record no_state { last_seen = 4 })
    ∷ []
