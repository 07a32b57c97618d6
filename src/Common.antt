-- ===== src/Common.antt =====
-- include/gcad/common.hpp: the error codes, the threat levels with their order, and the categories.
use gcad.Base.{ℕ, Bool}
use gcad.Base.Bytes.{Bytes}

pub data ErrorCode : Type 0 where
  ok err_nomem err_init_fail err_engine_start err_engine_stop err_scan_io : ErrorCode
  err_scan_access err_scan_corrupt err_net_socket err_net_bind err_net_recv : ErrorCode
  err_crypto_hash err_quarantine_full err_rollback_fail err_not_found : ErrorCode
  err_invalid_transition err_quarantine_denied err_shred_fail err_platform : ErrorCode
  err_self_defense : ErrorCode

pub data ThreatLevel : Type 0 where
  safe low medium high critical : ThreatLevel

-- The enumerators' values, by which C++ compares levels.
abbrev pub rank : ThreatLevel → ℕ
rank ThreatLevel.safe = 0
rank ThreatLevel.low = 1
rank ThreatLevel.medium = 2
rank ThreatLevel.high = 3
rank ThreatLevel.critical = 4

pub data ThreatCategory : Type 0 where
  none memory_injection process_hollow dll_injection apc_injection reflective_load : ThreatCategory
  shellcode network_scan syn_flood udp_flood dns_tunnel arp_poison icmp_covert : ThreatCategory
  raw_socket_probe ransomware file_encrypt registry_tamper backdoor_account : ThreatCategory
  evasion_amsi evasion_etw evasion_unhook direct_syscall ppid_spoof kerberos_attack : ThreatCategory
  ntlm_coerce credential_dump entropy_anomaly suspicious_binary fileless_exec : ThreatCategory
  anti_forensic dga_domain c2_beacon file_integrity_violation yara_rule_match : ThreatCategory
  device_policy kernel_attack lolbin_execution malware_packer persistence_hijack : ThreatCategory

-- The enumerators' values.
abbrev pub category_value : ThreatCategory → ℕ
category_value ThreatCategory.none = 0x0000
category_value ThreatCategory.memory_injection = 0x0100
category_value ThreatCategory.process_hollow = 0x0101
category_value ThreatCategory.dll_injection = 0x0102
category_value ThreatCategory.apc_injection = 0x0103
category_value ThreatCategory.reflective_load = 0x0104
category_value ThreatCategory.shellcode = 0x0105
category_value ThreatCategory.network_scan = 0x0200
category_value ThreatCategory.syn_flood = 0x0201
category_value ThreatCategory.udp_flood = 0x0202
category_value ThreatCategory.dns_tunnel = 0x0203
category_value ThreatCategory.arp_poison = 0x0204
category_value ThreatCategory.icmp_covert = 0x0205
category_value ThreatCategory.raw_socket_probe = 0x0206
category_value ThreatCategory.ransomware = 0x0300
category_value ThreatCategory.file_encrypt = 0x0301
category_value ThreatCategory.registry_tamper = 0x0302
category_value ThreatCategory.backdoor_account = 0x0303
category_value ThreatCategory.evasion_amsi = 0x0400
category_value ThreatCategory.evasion_etw = 0x0401
category_value ThreatCategory.evasion_unhook = 0x0402
category_value ThreatCategory.direct_syscall = 0x0403
category_value ThreatCategory.ppid_spoof = 0x0404
category_value ThreatCategory.kerberos_attack = 0x0500
category_value ThreatCategory.ntlm_coerce = 0x0501
category_value ThreatCategory.credential_dump = 0x0502
category_value ThreatCategory.entropy_anomaly = 0x0600
category_value ThreatCategory.suspicious_binary = 0x0700
category_value ThreatCategory.fileless_exec = 0x0800
category_value ThreatCategory.anti_forensic = 0x0900
category_value ThreatCategory.dga_domain = 0x0207
category_value ThreatCategory.c2_beacon = 0x0208
category_value ThreatCategory.file_integrity_violation = 0x0A00
category_value ThreatCategory.yara_rule_match = 0x0B00
category_value ThreatCategory.device_policy = 0x0C00
category_value ThreatCategory.kernel_attack = 0x0D00
category_value ThreatCategory.lolbin_execution = 0x0E00
category_value ThreatCategory.malware_packer = 0x0701
category_value ThreatCategory.persistence_hijack = 0x0702

-- A time point is its count of nanoseconds since the epoch.
pub record ThreatEvent : Type 0 where
  pub id : ℕ
  pub timestamp : ℕ
  pub level : ThreatLevel
  pub category : ThreatCategory
  pub process_id : ℕ
  pub process_name : Bytes
  pub file_path : Bytes
  pub description : Bytes
  pub source_ip : Bytes
  pub source_port : ℕ
  pub quarantined : Bool
  pub rolled_back : Bool
