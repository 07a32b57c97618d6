-- ===== src/Alerts/Threads.antt =====
-- Threads in the midst of `push`: between `next_id_.fetch_add` and the mutex others may run.
use gcad.Base.{ℕ, ◌+◌, ◌≡◌, Bool, false, List, [], ◌∷◌, ◌++◌}
use gcad.Common.{ThreatLevel, ThreatEvent}
use gcad.Alerts.{
  AlertManager, AlertRecord, init, make_record, fetch_id, append, is_ignored, acknowledge,
  acknowledge_all, clear, set_min_level, set_sound_enabled, set_toast_enabled,
  set_notification_callback,
}

-- The manager, and the records that threads have made and not yet appended.
pub record Shared : Type 0 where
  pub manager : AlertManager
  pub pending : List AlertRecord

abbrev pub with_manager : Shared → AlertManager → Shared
with_manager s m = record s { manager = m }

-- A step of one thread; the number says how many ids it takes.
pub data Step : ℕ → Shared → Shared → Type 0 where
  takes :
      {s : Shared} (now : ℕ) (ev : ThreatEvent)
      → is_ignored ev s.manager ≡ false
      → Step 1 s (record {
        manager = (fetch_id s.manager).1;
        pending = make_record (fetch_id s.manager).0 now ev ∷ s.pending;
      })
  appends :
      {s : Shared} (before : List AlertRecord) (rec : AlertRecord) (after : List AlertRecord)
      → s.pending ≡ before ++ (rec ∷ after)
      → Step 0 s (record { manager = append rec s.manager; pending = before ++ after })
  acknowledges : {s : Shared} (id : ℕ) → Step 0 s (with_manager s (acknowledge id s.manager))
  acknowledges_all : {s : Shared} → Step 0 s (with_manager s (acknowledge_all s.manager))
  clears : {s : Shared} → Step 0 s (with_manager s (clear s.manager))
  sets_level :
      {s : Shared} (level : ThreatLevel) → Step 0 s (with_manager s (set_min_level level s.manager))
  sets_sound : {s : Shared} (on : Bool) → Step 0 s (with_manager s (set_sound_enabled on s.manager))
  sets_toast : {s : Shared} (on : Bool) → Step 0 s (with_manager s (set_toast_enabled on s.manager))
  sets_callback :
      {s : Shared} (callable : Bool)
      → Step 0 s (with_manager s (set_notification_callback callable s.manager))

abbrev pub start : Shared
start = record { manager = init; pending = [] }

-- The states that any interleaving reaches, with the number of ids taken.
pub data Reaches : ℕ → Shared → Type 0 where
  starts : Reaches 0 start
  steps : {n k : ℕ} {s t : Shared} → Reaches n s → Step k s t → Reaches (n + k) t
