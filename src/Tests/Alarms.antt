-- ===== src/Tests/Alarms.antt =====
-- Two alerts, the first one acknowledged.
use gcad.Base.{◌≡◌, refl, ◌∷◌, [], arith}
use gcad.Alerts.{AlertRecord, init, make_record, append, trim, recent}
use gcad.Alerts.Threads.{Shared, Step, Reaches}
use gcad.Alerts.Ids.{IsNumbered, Reaches-IsNumbered}
use gcad.Alerts.Log.{last, log_of, recent-log}
use gcad.Tests.Adapter.{changed_file}

abbrev first_record : AlertRecord
first_record = make_record 1 7 changed_file

abbrev second_record : AlertRecord
second_record = make_record 2 8 changed_file

abbrev both_taken : Shared
both_taken = record {
  manager = record init { next_id = 3 };
  pending = second_record ∷ (first_record ∷ []);
}

-- The second alert is appended first.
abbrev both_shown : Shared
both_shown = record {
  manager = append first_record (append second_record both_taken.manager);
  pending = [];
}

is_reached : Reaches 2 both_shown
is_reached =
    Reaches.steps
      (Reaches.steps
        (Reaches.steps (Reaches.steps Reaches.starts (Step.takes 7 changed_file refl))
          (Step.takes 8 changed_file refl))
        (Step.appends [] second_record (first_record ∷ []) refl))
      (Step.appends [] first_record [] refl)

history_test : both_shown.manager.history ≡ second_record ∷ (first_record ∷ [])
unfolding append trim
history_test = refl

Reaches-IsNumbered_example : IsNumbered 2 both_shown
Reaches-IsNumbered_example = Reaches-IsNumbered 2 both_shown is_reached (omega arith)

recent-log_example :
    (both_shown.manager.history ≡ last 500 (log_of is_reached))
    × (recent 1 both_shown.manager ≡ last 1 (log_of is_reached))
recent-log_example = recent-log 2 both_shown is_reached 1 (omega arith) (omega arith)
