-- ===== src/Security/Pipeline/Drain.antt =====
-- `stop` ends, with an empty queue, and for good.
use gcad.Base.{
  ℕ, zero, suc, ◌<◌, ◌≡◌, refl, ap, ◌∙◌, Bool, true, false, List, [], ◌∷◌, none, some, arith,
  length,
}
use gcad.Common.{ErrorCode}
use gcad.Security.Observation.{Doubles, SecurityObservation}
use gcad.Security.Telemetry.{TelemetryBus, wait_pop, close, PublishResult}
use gcad.Security.Pipeline.{
  SecurityPipeline, process, add_candidate, work, work_on, worker_loop, start, stop, begin_stop,
  publish,
}

process_bus :
    (fp : Doubles) (now : ℕ) (o : SecurityObservation) (p : SecurityPipeline)
    → ((process fp now o p).bus ≡ p.bus) × ((process fp now o p).running ≡ p.running)
unfolding process add_candidate
process_bus fp now o p = ground arith

-- What a turn of the worker does, by what the queue holds.
work_next :
    (fp : Doubles) (now : ℕ) (p : SecurityPipeline) (o : SecurityObservation)
    (rest : List SecurityObservation)
    → p.bus.queue ≡ o ∷ rest
    → work fp now p ≡ some (process fp now o (record p { bus = record (p.bus) { queue = rest } }))
unfolding work work_on wait_pop
work_next fp now p o rest e = rw e

work_break :
    (fp : Doubles) (now : ℕ) (p : SecurityPipeline)
    → p.bus.queue ≡ []
    → p.bus.is_closed ≡ true
    → work fp now p ≡ none
unfolding work work_on wait_pop
work_break fp now p e c = rw e (rw c)

-- The pipeline after the worker has processed the given observations, oldest first.
abbrev pub process_all :
    Doubles → (ℕ → ℕ) → ℕ → List SecurityObservation → SecurityPipeline → SecurityPipeline
process_all fp clock fuel [] p = p
process_all fp clock zero (o ∷ rest) p = p
process_all fp clock (suc fuel) (o ∷ rest) p =
    process_all fp clock fuel rest
      (process fp (clock fuel) o (record p { bus = record (p.bus) { queue = rest } }))

worker_loop_turn :
    (fuel : ℕ) (fp : Doubles) (clock : ℕ → ℕ) (p q : SecurityPipeline)
    → work fp (clock fuel) p ≡ some q
    → worker_loop (suc fuel) fp clock p ≡ worker_loop fuel fp clock q
unfolding worker_loop
worker_loop_turn fuel fp clock p q h = rw (h, worker_loop)

worker_loop_end :
    (fuel : ℕ) (fp : Doubles) (clock : ℕ → ℕ) (p : SecurityPipeline)
    → work fp (clock fuel) p ≡ none
    → worker_loop (suc fuel) fp clock p ≡ some p
unfolding worker_loop
worker_loop_end fuel fp clock p h = rw (h, worker_loop)

worker_loop_drains :
    (fuel : ℕ) (fp : Doubles) (clock : ℕ → ℕ) (queue : List SecurityObservation)
    (p : SecurityPipeline)
    → p.bus.queue ≡ queue
    → p.bus.is_closed ≡ true
    → length queue < fuel
    → (worker_loop fuel fp clock p ≡ some (process_all fp clock fuel queue p))
      × ((process_all fp clock fuel queue p).bus.queue ≡ [])
      × ((process_all fp clock fuel queue p).bus.is_closed ≡ true)
      × ((process_all fp clock fuel queue p).running ≡ p.running)
worker_loop_drains zero fp clock queue p e c h = elim h [ ]
worker_loop_drains (suc fuel) fp clock [] p e c h =
    (worker_loop_end fuel fp clock p (work_break fp (clock fuel) p e c), e, c, refl)
worker_loop_drains (suc fuel) fp clock (o ∷ rest) p e c h =
    let popped = record p { bus = record (p.bus) { queue = rest } } in
    let next = process fp (clock fuel) o popped in
    let (same_bus, same_running) = process_bus fp (clock fuel) o popped in
    let (ends, emptied, shut, running) =
      worker_loop_drains fuel fp clock rest next (ap (λ (b : TelemetryBus). b.queue) same_bus)
        (ap (λ (b : TelemetryBus). b.is_closed) same_bus ∙ c) (omega arith) in
    (
      worker_loop_turn fuel fp clock p next (work_next fp (clock fuel) p o rest e) ∙ ends,
      emptied,
      shut,
      running ∙ same_running,
    )

-- On a running pipeline whose worker is at the top of its loop, `stop` returns once it is given
-- more turns than the queue holds: every queued observation has been processed, oldest first, the
-- queue is empty, the bus is closed and the pipeline no longer runs.
pub stop_drains :
    (fuel : ℕ) (fp : Doubles) (clock : ℕ → ℕ) (p : SecurityPipeline)
    → p.running ≡ true
    → length p.bus.queue < fuel
    → let q = process_all fp clock fuel p.bus.queue (begin_stop p) in
      (stop fuel fp clock p ≡ some (ErrorCode.ok, q))
      × (q.bus.queue ≡ [])
      × (q.bus.is_closed ≡ true)
      × (q.running ≡ false)
unfolding stop begin_stop close
stop_drains fuel fp clock p r h =
    let (ends, emptied, shut, running) =
      worker_loop_drains fuel fp clock p.bus.queue (begin_stop p) refl refl h in
    (rw (r, ends), emptied, shut, running)

-- A pipeline whose bus is closed and that does not run can be started no more, whatever the
-- operating system does, and answers every observation by `closed`, unchanged.
pub stopped_for_good :
    (fp : Doubles) (spawned : Bool) (o : SecurityObservation) (p : SecurityPipeline)
    → p.bus.is_closed ≡ true
    → p.running ≡ false
    → (start spawned p ≡ (ErrorCode.err_engine_start, p))
      × (publish fp o p ≡ (PublishResult.closed, p))
unfolding start publish
stopped_for_good fp spawned o p c r = (rw (r, c), rw r)
