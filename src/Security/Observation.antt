-- ===== src/Security/Observation.antt =====
-- include/gcad/security/observation.hpp. A `double` is its 64-bit pattern; what the processor and
-- the C library do on it is the parameter `Doubles`.
use gcad.Base.{ℕ, ◌≤◌, ◌≡◌, Bool, true, not, ◌&&◌, ◌++◌, map, if◌then◌else◌, ◌==◌}
use gcad.Base.Bytes.{Bytes, text, is_empty, tolower, to_string}
use gcad.Common.{ThreatLevel, rank}

-- The patterns of 0.0, 1.0 and 50.0.
abbrev pub zero_double : ℕ
zero_double = 0

abbrev pub one_double : ℕ
one_double = 0x3ff0000000000000

abbrev pub fifty_double : ℕ
fifty_double = 0x4049000000000000

-- std::isfinite, <=, * and std::lround (cast to unsigned) on doubles.
pub record Doubles : Type 0 where
  pub is_finite : ℕ → Bool
  pub le : ℕ → ℕ → Bool
  pub mul : ℕ → ℕ → ℕ
  pub lround : ℕ → ℕ

-- A law of IEEE 754: a factor from 0 to 1 leaves a product of at most 50, which rounds to at most 50.
pub record IsIeee (fp : Doubles) : Type 0 where
  pub lround-mul-le :
      (c : ℕ)
      → fp.is_finite c ≡ true
      → fp.le zero_double c ≡ true
      → fp.le c one_double ≡ true
      → fp.lround (fp.mul c fifty_double) ≤ 50

pub data ObservationKind : Type 0 where
  artifact_signature artifact_structure artifact_trust invalid_pe : ObservationKind
  unsigned_risky_location invalid_signature high_entropy process_memory : ObservationKind
  process_lineage network_connection registry_persistence file_integrity : ObservationKind
  dns_anomaly yara_match legacy_engine : ObservationKind

abbrev pub kind_value : ObservationKind → ℕ
kind_value ObservationKind.artifact_signature = 0
kind_value ObservationKind.artifact_structure = 1
kind_value ObservationKind.artifact_trust = 2
kind_value ObservationKind.invalid_pe = 3
kind_value ObservationKind.unsigned_risky_location = 4
kind_value ObservationKind.invalid_signature = 5
kind_value ObservationKind.high_entropy = 6
kind_value ObservationKind.process_memory = 7
kind_value ObservationKind.process_lineage = 8
kind_value ObservationKind.network_connection = 9
kind_value ObservationKind.registry_persistence = 10
kind_value ObservationKind.file_integrity = 11
kind_value ObservationKind.dns_anomaly = 12
kind_value ObservationKind.yara_match = 13
kind_value ObservationKind.legacy_engine = 14

-- A time point is its count of nanoseconds since the epoch.
pub record SecurityObservation : Type 0 where
  pub source_id : Bytes
  pub kind : ObservationKind
  pub timestamp : ℕ
  pub suggested_level : ThreatLevel
  pub confidence : ℕ
  pub deterministic : Bool
  pub process_id : ℕ
  pub process_name : Bytes
  pub file_path : Bytes
  pub sha256 : Bytes
  pub evidence : Bytes

unfoldable pub valid : Doubles → SecurityObservation → Bool
valid fp o =
    not (is_empty o.source_id)
    && not (is_empty o.evidence)
    && fp.is_finite o.confidence
    && fp.le zero_double o.confidence
    && fp.le o.confidence one_double
    && not (rank o.suggested_level == 0)

unfoldable pub normalize : Bytes → Bytes
unfolding tolower
normalize value = map (λ c. tolower (if c == b'\\' then b'/' else c)) value

unfoldable pub identity : SecurityObservation → Bytes
unfolding normalize to_string
identity o =
    if not (is_empty o.sha256)
    then normalize o.sha256
    else if not (is_empty o.file_path)
    then normalize o.file_path
    else if not (o.process_id == 0)
    then text "pid:" ++ to_string o.process_id
    else normalize o.process_name

unfoldable pub correlation_key : SecurityObservation → Bytes
unfolding identity
correlation_key o = to_string (kind_value o.kind) ++ (text ":" ++ identity o)
