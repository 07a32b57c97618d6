-- ===== src/Alerts.antt =====
-- src/alert/alert_manager.cpp and include/gcad/alert/alert_manager.hpp: the history of alerts. Where a
-- notification shows or sounds is the operating system's part, and here a value that says which call is
-- made. `next_id_` is atomic and the history behind a mutex; `push` as one call is here, its two steps
-- among those of other threads are in Alerts/Threads.antt.
pub mod Threads
pub mod Ids
pub mod Acknowledged
pub mod Log
use gcad.Base.{
  ℕ, ◌+◌, ◌-◌, ◌%◌, ◌^◌, Bool, true, false, List, [], ◌∷◌, ◌++◌, map, if◌then◌else◌, ltb, ◌==◌,
  length, drop,
}
use gcad.Base.Bytes.{Bytes, text}
use gcad.Common.{ThreatLevel, ThreatCategory, ThreatEvent, rank}

abbrev pub max_history : ℕ
max_history = 500

abbrev pub map_category_source : ThreatCategory → Bytes
map_category_source ThreatCategory.memory_injection = text "PMSR"
map_category_source ThreatCategory.process_hollow = text "PMSR"
map_category_source ThreatCategory.dll_injection = text "PMSR"
map_category_source ThreatCategory.apc_injection = text "PMSR"
map_category_source ThreatCategory.reflective_load = text "PMSR"
map_category_source ThreatCategory.shellcode = text "PMSR"
map_category_source ThreatCategory.fileless_exec = text "PMSR"
map_category_source ThreatCategory.dns_tunnel = text "DnsMon"
map_category_source ThreatCategory.dga_domain = text "DnsMon"
map_category_source ThreatCategory.ransomware = text "ARHS"
map_category_source ThreatCategory.file_encrypt = text "ARHS"
map_category_source ThreatCategory.backdoor_account = text "ARHS"
map_category_source ThreatCategory.network_scan = text "ZRGP"
map_category_source ThreatCategory.syn_flood = text "ZRGP"
map_category_source ThreatCategory.udp_flood = text "ZRGP"
map_category_source ThreatCategory.arp_poison = text "ZRGP"
map_category_source ThreatCategory.icmp_covert = text "ZRGP"
map_category_source ThreatCategory.raw_socket_probe = text "ZRGP"
map_category_source ThreatCategory.registry_tamper = text "RegMon"
map_category_source ThreatCategory.evasion_amsi = text "SyscallGuard"
map_category_source ThreatCategory.evasion_etw = text "SyscallGuard"
map_category_source ThreatCategory.evasion_unhook = text "SyscallGuard"
map_category_source ThreatCategory.direct_syscall = text "SyscallGuard"
map_category_source ThreatCategory.ppid_spoof = text "KernelMon"
map_category_source ThreatCategory.kerberos_attack = text "KernelMon"
map_category_source ThreatCategory.ntlm_coerce = text "KernelMon"
map_category_source ThreatCategory.credential_dump = text "KernelMon"
map_category_source ThreatCategory.entropy_anomaly = text "DeepScan"
map_category_source ThreatCategory.suspicious_binary = text "DeepScan"
map_category_source ThreatCategory.anti_forensic = text "SelfDefense"
map_category_source ThreatCategory.file_integrity_violation = text "FIM"
map_category_source ThreatCategory.yara_rule_match = text "YARA"
map_category_source _ = text "GCAD"

pub record AlertRecord : Type 0 where
  pub id : ℕ
  pub timestamp : ℕ
  pub level : ThreatLevel
  pub category : ThreatCategory
  pub source : Bytes
  pub description : Bytes
  pub process_name : Bytes
  pub process_id : ℕ
  pub acknowledged : Bool

-- Whether a callback is set stands for the callback.
pub record AlertManager : Type 0 where
  pub history : List AlertRecord
  pub next_id : ℕ
  pub min_level : ThreatLevel
  pub sound_enabled : Bool
  pub toast_enabled : Bool
  pub has_callback : Bool

abbrev pub init : AlertManager
init = record {
  history = [];
  next_id = 1;
  min_level = ThreatLevel.low;
  sound_enabled = false;
  toast_enabled = true;
  has_callback = false;
}

-- The calls that `push` ends with.
pub data Notification : Type 0 where
  calls_back : AlertRecord → Notification
  shows_balloon : AlertRecord → Notification
  plays_sound : ThreatLevel → Notification

-- The record of an event, `now` where the event has no time.
abbrev pub make_record : ℕ → ℕ → ThreatEvent → AlertRecord
make_record id now ev = record {
  id = id;
  timestamp = if ev.timestamp == 0 then now else ev.timestamp;
  level = ev.level;
  category = ev.category;
  source = map_category_source ev.category;
  description = ev.description;
  process_name = ev.process_name;
  process_id = ev.process_id;
  acknowledged = false;
}

-- `next_id_.fetch_add(1)`
abbrev pub fetch_id : AlertManager → ℕ × AlertManager
fetch_id m = (m.next_id, record m { next_id = (m.next_id + 1) % 2 ^ 64 })

-- `while (history_.size() > MAX_HISTORY) history_.pop_front();`
unfoldable pub trim : List AlertRecord → List AlertRecord
trim records = drop (length records - max_history) records

-- The section of `push` behind the mutex.
unfoldable pub append : AlertRecord → AlertManager → AlertManager
unfolding trim
append rec m = record m { history = trim (m.history ++ (rec ∷ [])) }

-- With the tray of Windows, or without.
unfoldable pub notifications : Bool → AlertManager → AlertRecord → List Notification
notifications true m rec =
    (if m.has_callback
      then Notification.calls_back rec ∷ []
      else if m.toast_enabled
      then Notification.shows_balloon rec ∷ []
      else [])
    ++ (if m.sound_enabled then Notification.plays_sound rec.level ∷ [] else [])
notifications false m rec = if m.has_callback then Notification.calls_back rec ∷ [] else []

abbrev pub is_ignored : ThreatEvent → AlertManager → Bool
is_ignored ev m = ltb (rank ev.level) (rank m.min_level)

unfoldable pub push : Bool → ℕ → ThreatEvent → AlertManager → AlertManager × List Notification
unfolding append notifications
push windows now ev m =
    if is_ignored ev m
    then (m, [])
    else let (id, m') = fetch_id m in
      let rec = make_record id now ev in (append rec m', notifications windows m' rec)

unfoldable pub recent : ℕ → AlertManager → List AlertRecord
recent n m = drop (length m.history - n) m.history

abbrev pub total_count : AlertManager → ℕ
total_count m = length m.history

abbrev pub count_unacknowledged : List AlertRecord → ℕ
count_unacknowledged [] = 0
count_unacknowledged (r ∷ rs) = (if r.acknowledged then 0 else 1) + count_unacknowledged rs

abbrev pub unacknowledged_count : AlertManager → ℕ
unacknowledged_count m = count_unacknowledged m.history

abbrev pub acknowledged_record : AlertRecord → AlertRecord
acknowledged_record r = record r { acknowledged = true }

-- The loop of `acknowledge`, which ends at the first record with the id.
unfoldable pub acknowledge_first : ℕ → List AlertRecord → List AlertRecord
acknowledge_first id [] = []
acknowledge_first id (r ∷ rs) =
    if r.id == id then acknowledged_record r ∷ rs else r ∷ acknowledge_first id rs

unfoldable pub acknowledge : ℕ → AlertManager → AlertManager
unfolding acknowledge_first
acknowledge id m = record m { history = acknowledge_first id m.history }

unfoldable pub acknowledge_all : AlertManager → AlertManager
acknowledge_all m = record m { history = map acknowledged_record m.history }

unfoldable pub clear : AlertManager → AlertManager
clear m = record m { history = [] }

unfoldable pub set_min_level : ThreatLevel → AlertManager → AlertManager
set_min_level level m = record m { min_level = level }

unfoldable pub set_sound_enabled : Bool → AlertManager → AlertManager
set_sound_enabled on m = record m { sound_enabled = on }

unfoldable pub set_toast_enabled : Bool → AlertManager → AlertManager
set_toast_enabled on m = record m { toast_enabled = on }

unfoldable pub set_notification_callback : Bool → AlertManager → AlertManager
set_notification_callback callable m = record m { has_callback = callable }
