-- ===== src/Scheduler/Trigger/Once.antt =====
-- The latch of src/scheduler.rs over whole calls of `observe_interface_health`.
use netband.Base.{List, ◌++◌, Option, String}
use netband.Chrono.{Chrono, Instant}
use netband.Health.{HealthDecision, HealthSnapshot, DegradationReason}
use netband.Model.{MeasurementEvent}
use netband.Scheduler.Store.{Storage, Scheduler, M, reply, ◌>>=◌}
use netband.Scheduler.Trigger.{on_decision}

module _ {D : Type 0} (c : Chrono) (w : Storage D) (run_id : String) where
  module _ (interface : Option String) (seen : HealthSnapshot) (why : DegradationReason) where
    decide : Instant → List MeasurementEvent → M D (List MeasurementEvent)
    decide now before =
        on_decision c w run_id now interface (HealthDecision.degraded seen why) >>= λ events.
        reply (λ _. before ++ events)
