-- ===== src/Security/Telemetry.antt =====
-- src/security/telemetry_bus.cpp: the bounded queue between the engines and the pipeline. Each
-- method holds the mutex for its whole effect and is one step; the metrics are uint64_t counters,
-- which are not read as wrapping (2 ^ 64 calls). `wait_pop` returns as `try_pop` does, once its
-- wait for an element, for the close or for the timeout is over.
pub mod Fifo
use gcad.Base.{
  ℕ, suc, ◌+◌, Bool, true, false, not, List, [], ◌∷◌, ◌++◌, Option, none, some, if◌then◌else◌, leb,
  length, max,
}
use gcad.Security.Observation.{Doubles, SecurityObservation, valid}

pub data PublishResult : Type 0 where
  accepted dropped_full rejected_invalid closed : PublishResult

pub record TelemetryMetrics : Type 0 where
  pub accepted : ℕ
  pub dropped_full : ℕ
  pub rejected_invalid : ℕ
  pub rejected_closed : ℕ

pub record TelemetryBus : Type 0 where
  pub capacity : ℕ
  pub queue : List SecurityObservation
  pub is_closed : Bool
  pub metrics : TelemetryMetrics

unfoldable pub init : ℕ → TelemetryBus
init capacity = record {
  capacity = max 1 capacity;
  queue = [];
  is_closed = false;
  metrics = record { accepted = 0; dropped_full = 0; rejected_invalid = 0; rejected_closed = 0 };
}

unfoldable pub publish : Doubles → SecurityObservation → TelemetryBus → PublishResult × TelemetryBus
publish fp observation bus =
    if not (valid fp observation)
    then (
      PublishResult.rejected_invalid,
      record bus { metrics = record m { rejected_invalid = m.rejected_invalid + 1 } },
    )
    else if bus.is_closed
    then (
      PublishResult.closed,
      record bus { metrics = record m { rejected_closed = m.rejected_closed + 1 } },
    )
    else if leb bus.capacity (length bus.queue)
    then (
      PublishResult.dropped_full,
      record bus { metrics = record m { dropped_full = m.dropped_full + 1 } },
    )
    else (
      PublishResult.accepted,
      record bus {
        queue = bus.queue ++ (observation ∷ []);
        metrics = record m { accepted = m.accepted + 1 };
      },
    )
  where
    m : TelemetryMetrics
    m = bus.metrics

unfoldable pub pop_front :
    TelemetryBus → List SecurityObservation → Option (SecurityObservation × TelemetryBus)
pop_front bus [] = none
pop_front bus (o ∷ rest) = some (o, record bus { queue = rest })

unfoldable pub try_pop : TelemetryBus → Option (SecurityObservation × TelemetryBus)
unfolding pop_front
try_pop bus = pop_front bus bus.queue

-- What follows the wait, whatever ended it.
unfoldable pub wait_pop : TelemetryBus → Option (SecurityObservation × TelemetryBus)
unfolding pop_front
wait_pop bus = pop_front bus bus.queue

unfoldable pub close : TelemetryBus → TelemetryBus
close bus = record bus { is_closed = true }
