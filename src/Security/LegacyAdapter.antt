-- ===== src/Security/LegacyAdapter.antt =====
-- src/security/legacy_adapter.cpp: the observation made of an event of one of the older engines. A
-- confidence is the pattern of the double that the source's literal denotes.
pub mod Table
pub mod Valid
use gcad.Base.{
  Bool, true, false, ◌&&◌, List, [], ◌∷◌, ◌++◌, Option, none, some, ℕ, if◌then◌else◌, ◌==◌,
}
use gcad.Base.Bytes.{Bytes, text, is_empty, eqb, to_string}
use gcad.Common.{ThreatLevel, ThreatCategory, category_value, ThreatEvent}
use gcad.Security.Observation.{ObservationKind, SecurityObservation, zero_double}

pub record ConfidenceRule : Type 0 where
  pub engine_name : Bytes
  pub category : ThreatCategory
  pub confidence : ℕ
  pub deterministic : Bool

abbrev rule : Bytes → ThreatCategory → ℕ → Bool → ConfidenceRule
rule engine_name category confidence deterministic = record {
  engine_name = engine_name;
  category = category;
  confidence = confidence;
  deterministic = deterministic;
}

abbrev pub rules : List ConfidenceRule
rules =
    rule (text "PMSR") ThreatCategory.memory_injection 0x3fed70a3d70a3d71 true
    ∷ rule (text "SelfDefense") ThreatCategory.evasion_unhook 0x3fec28f5c28f5c29 true
    ∷ rule (text "SelfDefense") ThreatCategory.memory_injection 0x3feccccccccccccd true
    ∷ rule (text "SelfDefense") ThreatCategory.dll_injection 0x3fe8000000000000 true
    ∷ rule (text "SyscallGuard") ThreatCategory.evasion_unhook 0x3fed70a3d70a3d71 true
    ∷ rule (text "SyscallGuard") ThreatCategory.direct_syscall 0x3fe999999999999a true
    ∷ rule (text "ARHS") ThreatCategory.ransomware 0x3fe199999999999a false
    ∷ rule (text "ARHS") ThreatCategory.file_encrypt 0x3fe3333333333333 false
    ∷ rule (text "ETG-RI") ThreatCategory.entropy_anomaly 0x3fdccccccccccccd false
    ∷ rule (text "ETG-RI") ThreatCategory.raw_socket_probe 0x3fdccccccccccccd false
    ∷ rule (text "ETG-RI") ThreatCategory.syn_flood 0x3fe4cccccccccccd false
    ∷ rule (text "ZRGP") ThreatCategory.network_scan 0x3feb333333333333 true
    ∷ rule (text "KernelMon") ThreatCategory.evasion_amsi 0x3feccccccccccccd true
    ∷ rule (text "KernelMon") ThreatCategory.evasion_etw 0x3feb333333333333 true
    ∷ rule (text "KernelMon") ThreatCategory.ppid_spoof 0x3feccccccccccccd true
    ∷ rule (text "KernelMon") ThreatCategory.suspicious_binary 0x3fe0000000000000 false
    ∷ rule (text "RegMon") ThreatCategory.registry_tamper 0x3feb333333333333 true
    ∷ rule (text "FIM") ThreatCategory.file_integrity_violation 0x3fee666666666666 true
    ∷ rule (text "DnsMon") ThreatCategory.dns_tunnel 0x3feccccccccccccd true
    ∷ rule (text "DnsMon") ThreatCategory.dga_domain 0x3fe4cccccccccccd false
    ∷ rule (text "YARA") ThreatCategory.yara_rule_match 0x3fec28f5c28f5c29 true
    ∷ []

abbrev pub confidence_for_level : ThreatLevel → ℕ
confidence_for_level ThreatLevel.low = 0x3fd3333333333333
confidence_for_level ThreatLevel.medium = 0x3fe0000000000000
confidence_for_level ThreatLevel.high = 0x3fe6666666666666
confidence_for_level ThreatLevel.critical = 0x3feccccccccccccd
confidence_for_level ThreatLevel.safe = zero_double

-- The first rule for the engine and the category.
unfoldable pub find_rule : Bytes → ThreatCategory → List ConfidenceRule → Option ConfidenceRule
find_rule engine_name category [] = none
find_rule engine_name category (r ∷ rs) =
    if eqb r.engine_name engine_name && (category_value r.category == category_value category)
    then some r
    else find_rule engine_name category rs

-- What is set whichever rule applies.
abbrev pub observation_of : ThreatEvent → Bytes → ℕ → Bool → SecurityObservation
observation_of event source_id confidence deterministic = record {
  source_id = source_id;
  kind = ObservationKind.legacy_engine;
  timestamp = event.timestamp;
  suggested_level = event.level;
  confidence = confidence;
  deterministic = deterministic;
  process_id = event.process_id;
  process_name = event.process_name;
  file_path = event.file_path;
  sha256 = [];
  evidence = if is_empty event.description then text "Legacy engine event" else event.description;
}

abbrev pub apply_rule : ThreatEvent → Bytes → Option ConfidenceRule → SecurityObservation
apply_rule event engine_name (some r) =
    observation_of event engine_name r.confidence r.deterministic
apply_rule event engine_name none =
    observation_of event
      (if is_empty engine_name
        then text "legacy:" ++ to_string (category_value event.category)
        else engine_name)
      (confidence_for_level event.level) false

unfoldable pub adapt_legacy_event : ThreatEvent → Bytes → SecurityObservation
unfolding find_rule
adapt_legacy_event event engine_name =
    apply_rule event engine_name (find_rule engine_name event.category rules)
