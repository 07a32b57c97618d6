-- ===== src/Security/Pipeline/Calls.antt =====
-- The pipeline's methods and the worker's turns as one alphabet, in any order, each a whole.
use gcad.Base.{ℕ, Bool, List, [], ◌∷◌, Option, none, some, if◌then◌else◌}
use gcad.Security.Observation.{Doubles, SecurityObservation}
use gcad.Security.Pipeline.{
  SecurityPipeline, start, publish, begin_stop, work, approve_candidate, reject_candidate,
}

-- A call from outside, or a turn of the worker at the clock's time.
pub data Call : Type 0 where
  starts : Bool → Call
  stops : Call
  publishes : SecurityObservation → Call
  works : ℕ → Call
  approves : ℕ → Call
  rejects : ℕ → Call

unfoldable pub after_work : SecurityPipeline → Option SecurityPipeline → SecurityPipeline
after_work p none = p
after_work p (some q) = q

-- The stores of one call. The worker turns only while its thread has not left its loop; a further
-- turn on a closed and empty bus changes nothing.
unfoldable pub step : Doubles → SecurityPipeline → Call → SecurityPipeline
unfolding after_work
step fp p (starts spawned) = (start spawned p).1
step fp p stops = if p.running then begin_stop p else p
step fp p (publishes o) = (publish fp o p).1
step fp p (works now) = after_work p (work fp now p)
step fp p (approves id) = (approve_candidate id p).1
step fp p (rejects id) = (reject_candidate id p).1

unfoldable pub run : Doubles → SecurityPipeline → List Call → SecurityPipeline
run fp p [] = p
run fp p (c ∷ cs) = run fp (step fp p c) cs
