-- ===== src/Security/Telemetry/Fifo.antt =====
-- What the bus promises over any sequence of calls: a bounded queue, first in first out, with a
-- count of every call.
use gcad.Base.{
  ℕ, ◌+◌, ◌≤◌, ◌≡◌, refl, ◌∙◌, true, List, [], ◌∷◌, ◌++◌, Option, none, some, arith, length,
  length-append,
}
use gcad.Security.Observation.{Doubles, SecurityObservation, valid}
use gcad.Security.Telemetry.{TelemetryBus, PublishResult, init, publish, pop_front, try_pop, close}
use mathlib.Core.List.{append_assoc}

-- A call of the bus: a producer's, the worker's, or the one that ends it.
pub data Call : Type 0 where
  publishes : SecurityObservation → Call
  pops : Call
  closes : Call

-- The bus with its history: what it accepted and what the worker took, in order, and how many
-- times a producer called.
pub record History : Type 0 where
  pub bus : TelemetryBus
  pub entered : List SecurityObservation
  pub taken : List SecurityObservation
  pub offers : ℕ

unfoldable pub start : ℕ → History
start capacity = record { bus = init capacity; entered = []; taken = []; offers = 0 }

after_publish : History → SecurityObservation → PublishResult × TelemetryBus → History
after_publish h o (PublishResult.accepted, bus) = record h {
  bus = bus;
  entered = h.entered ++ (o ∷ []);
  offers = h.offers + 1;
}
after_publish h o (_, bus) = record h { bus = bus; offers = h.offers + 1 }

after_pop : History → Option (SecurityObservation × TelemetryBus) → History
after_pop h none = h
after_pop h (some (o, bus)) = record h { bus = bus; taken = h.taken ++ (o ∷ []) }

unfoldable pub step : Doubles → History → Call → History
unfolding after_publish after_pop
step fp h (publishes o) = after_publish h o (publish fp o h.bus)
step fp h pops = after_pop h (try_pop h.bus)
step fp h closes = record h { bus = close h.bus }

unfoldable pub run : Doubles → History → List Call → History
run fp h [] = h
run fp h (c ∷ cs) = run fp (step fp h c) cs

abbrev pub AllValid : Doubles → List SecurityObservation → Type 0
AllValid fp [] = Unit
AllValid fp (o ∷ q) = (valid fp o ≡ true) × AllValid fp q

AllValid-push :
    (fp : Doubles) (o : SecurityObservation) (q : List SecurityObservation)
    → valid fp o ≡ true
    → AllValid fp q
    → AllValid fp (q ++ (o ∷ []))
AllValid-push fp o [] h a = (h, tt)
AllValid-push fp o (p ∷ q) h a = (a.0, AllValid-push fp o q h a.1)

pub record IsFifo (fp : Doubles) (h : History) : Type 0 where
  pub order : h.entered ≡ h.taken ++ h.bus.queue
  pub bounded : length h.bus.queue ≤ h.bus.capacity
  pub counted : h.bus.metrics.accepted ≡ length h.entered
  pub answered :
      h.bus.metrics.accepted + h.bus.metrics.dropped_full + h.bus.metrics.rejected_invalid
        + h.bus.metrics.rejected_closed
      ≡ h.offers
  pub sound : AllValid fp h.bus.queue

start-IsFifo : (fp : Doubles) (capacity : ℕ) → IsFifo fp (start capacity)
unfolding start init
start-IsFifo fp capacity = ground arith

publish-IsFifo :
    (fp : Doubles) (h : History) (o : SecurityObservation)
    → IsFifo fp h
    → IsFifo fp (step fp h (publishes o))
unfolding step publish
publish-IsFifo fp h o v = ground (
  arith,
  append_assoc h.taken h.bus.queue (o ∷ []),
  length-append h.bus.queue (o ∷ []),
  length-append h.entered (o ∷ []),
  AllValid-push fp o h.bus.queue,
)

pop-IsFifo :
    (fp : Doubles) (h : History) (q : List SecurityObservation)
    → h.bus.queue ≡ q
    → IsFifo fp h
    → IsFifo fp (after_pop h (pop_front h.bus q))
unfolding after_pop pop_front
pop-IsFifo fp h [] e v = v
pop-IsFifo fp h (o ∷ rest) e v = ground (arith, append_assoc h.taken (o ∷ []) rest)

step-IsFifo : (fp : Doubles) (h : History) (c : Call) → IsFifo fp h → IsFifo fp (step fp h c)
unfolding step close try_pop
step-IsFifo fp h (publishes o) v = publish-IsFifo fp h o v
step-IsFifo fp h pops v = pop-IsFifo fp h h.bus.queue refl v
step-IsFifo fp h closes v = ground arith

run-IsFifo : (fp : Doubles) (cs : List Call) (h : History) → IsFifo fp h → IsFifo fp (run fp h cs)
unfolding run
run-IsFifo fp [] h v = v
run-IsFifo fp (c ∷ cs) h v = run-IsFifo fp cs (step fp h c) (step-IsFifo fp h c v)

-- After any sequence of calls on a new bus, what it accepted is what the worker took followed by
-- the queue, in the order of acceptance; the queue is within the capacity and holds valid
-- observations only; and the four counters add up to the calls of `publish`, with `accepted` the
-- number that entered.
pub run-start-IsFifo :
    (fp : Doubles) (capacity : ℕ) (cs : List Call) → IsFifo fp (run fp (start capacity) cs)
run-start-IsFifo fp capacity cs = run-IsFifo fp cs (start capacity) (start-IsFifo fp capacity)

step_closed :
    (fp : Doubles) (h : History) (c : Call)
    → h.bus.is_closed ≡ true
    → ((step fp h c).bus.is_closed ≡ true) × ((step fp h c).entered ≡ h.entered)
unfolding step publish try_pop close pop_front after_pop after_publish
step_closed fp h (publishes o) e = ground arith
step_closed fp h pops e = ground arith
step_closed fp h closes e = ground arith

-- A closed bus stays closed, and nothing enters it any more, whatever is called.
pub run_closed :
    (fp : Doubles) (cs : List Call) (h : History)
    → h.bus.is_closed ≡ true
    → ((run fp h cs).bus.is_closed ≡ true) × ((run fp h cs).entered ≡ h.entered)
unfolding run
run_closed fp [] h e = (e, refl)
run_closed fp (c ∷ cs) h e =
    let now = step_closed fp h c e in
    let later = run_closed fp cs (step fp h c) now.0 in (later.0, later.1 ∙ now.1)
