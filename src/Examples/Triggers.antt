-- ===== src/Examples/Triggers.antt =====
-- Health decisions at concrete inputs.
use netband.Base.{◌*◌, ◌≡◌, refl, true, none, some, List, []}
use netband.Chrono.Utc.{utc}
use netband.Health.{HealthDecision, HealthSnapshot, DegradationReason}
use netband.Scheduler.Store.{Scheduler, Providers, Result}
use netband.Scheduler.Admission.{event, for_interface}
use netband.Model.{
  MeasurementEvent, Outcome, TriggerReason, SchedulerAction, SchedulerReason, Message,
}
use netband.Scheduler.Trigger.{
  default_trigger, interface_trigger, on_decision, observe_interface_health,
}
use netband.Scheduler.Trigger.Laws.{recovered_default, on_decision-others}
use netband.Examples.Fixtures.{memory, policy, second, due}

abbrev seen : HealthSnapshot
seen = record {
  attempted = 4;
  successful = 2;
  loss_pct = 50;
  p95_rtt_ms = none;
  sufficient_samples = true;
}

abbrev degraded_after : Scheduler Providers × Result (List MeasurementEvent)
degraded_after =
    observe_interface_health utc memory "r" (6 * second) (some "eth0")
      (HealthDecision.degraded seen DegradationReason.loss) due

abbrev report : MeasurementEvent
report =
    event utc policy degraded_after.0.state "r" (6 * second) Outcome.deferred
      TriggerReason.ping_loss (for_interface (some "eth0")) SchedulerAction.trigger_pending
      SchedulerReason.health_degraded (Message.degraded 50 none (66 * second))

abbrev nothing : List MeasurementEvent
nothing = []

recovered_default_example :
    interface_trigger
      (on_decision utc memory "r"
        (6 * second)
        (some "eth0")
        (HealthDecision.recovered seen)
        due).0.state
      (some "eth0")
    ≡ default_trigger
recovered_default_example = recovered_default utc memory "r" (6 * second) (some "eth0") seen due

on_decision-others_example :
    interface_trigger
      (on_decision utc memory "r"
        (6 * second)
        (some "eth0")
        (HealthDecision.degraded seen DegradationReason.loss)
        due).0.state
      (some "wlan0")
    ≡ interface_trigger due.state (some "wlan0")
on_decision-others_example =
    on_decision-others utc memory "r" (6 * second) (some "eth0") (some "wlan0")
      (HealthDecision.degraded seen DegradationReason.loss) due refl
