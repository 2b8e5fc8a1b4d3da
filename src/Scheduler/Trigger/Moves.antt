-- ===== src/Scheduler/Trigger/Moves.antt =====
-- `observe_interface_health` as a path of changes.
use netband.Base.{refl, Bool-cases, inl, inr, String, Option, none, some, ◌||◌, ◌++◌}
use netband.Chrono.{Chrono, Instant}
use netband.Health.{HealthDecision, HealthSnapshot, DegradationReason}
use netband.Scheduler.Types.{PendingTrigger, SchedulerPolicy}
use netband.Scheduler.Store.{Storage, Scheduler, reply}
use netband.Scheduler.Time.{add_duration}
use netband.Scheduler.Change.{raise, rearm}
use netband.Scheduler.Change.Rules.{Does, DoesAt, Does-save, Does-reply, Does-bind, Does-at}
use netband.Scheduler.Clock.{advance_clock}
use netband.Scheduler.Clock.Moves.{advance_clock-Moves}
use netband.Scheduler.Trigger.{
  interface_trigger, latch, disarm, trigger_reason_of, is_some, on_degraded, cancelled_events,
  on_recovered, on_decision, observe_interface_health,
}

module _ {D : Type 0} (c : Chrono) (w : Storage D) where
  on_degraded-Moves :
      (run_id : String) (now : Instant) (interface : Option String) (snapshot : HealthSnapshot)
      (reason : DegradationReason) (s : Scheduler D)
      → DoesAt c now (on_degraded c w run_id now interface snapshot reason) s
  unfolding on_degraded
  on_degraded-Moves run_id now interface snapshot reason s =
      let why = trigger_reason_of reason in
      let expires_at = add_duration c now s.policy.pending_ttl in
      Does-save c s.policy now w (latch why interface now expires_at) _
        (λ a. raise why interface expires_at) (Does-reply c s.policy now _) s refl

  cancelled_events-Does :
      (p : SchedulerPolicy) (run_id : String) (now : Instant) (interface : Option String)
      (pending : Option PendingTrigger)
      → Does c p now (cancelled_events c w run_id now interface pending)
  unfolding cancelled_events
  cancelled_events-Does p run_id now interface none = Does-reply c p now _
  cancelled_events-Does p run_id now interface (some pending) = Does-reply c p now _

  on_recovered-Moves :
      (run_id : String) (now : Instant) (interface : Option String) (s : Scheduler D)
      → DoesAt c now (on_recovered c w run_id now interface) s
  unfolding on_recovered
  on_recovered-Moves run_id now interface s =
      let t = interface_trigger s.state interface in
      let reports = cancelled_events-Does s.policy run_id now interface t.pending in
      elim (Bool-cases (is_some t.pending || t.latched)) [
        | inl armed ↦
            rw armed (
              Does-save c s.policy now w (disarm interface) _ (λ a. rearm interface) reports s refl)
        | inr idle ↦ rw idle (reports s refl)
      ]

  on_decision-Moves :
      (run_id : String) (now : Instant) (interface : Option String) (decision : HealthDecision)
      (s : Scheduler D)
      → DoesAt c now (on_decision c w run_id now interface decision) s
  unfolding on_decision
  on_decision-Moves run_id now interface (HealthDecision.degraded snapshot reason) s =
      elim (Bool-cases (interface_trigger s.state interface).latched) [
        | inl old ↦ rw old (Does-reply c s.policy now _ s refl)
        | inr new ↦ rw new (on_degraded-Moves run_id now interface snapshot reason s)
      ]
  on_decision-Moves run_id now interface (HealthDecision.recovered snapshot) s =
      on_recovered-Moves run_id now interface s
  on_decision-Moves run_id now interface (HealthDecision.healthy snapshot) s =
      Does-reply c s.policy now _ s refl

  pub observe_interface_health-Moves :
      (run_id : String) (now : Instant) (interface : Option String) (decision : HealthDecision)
      (s : Scheduler D)
      → DoesAt c now (observe_interface_health c w run_id now interface decision) s
  unfolding observe_interface_health
  observe_interface_health-Moves run_id now interface decision s =
      let clock = advance_clock c w run_id now in
      let decide = on_decision c w run_id now interface decision in
      Does-bind c s.policy now clock _
        (Does-at c s.policy now clock (advance_clock-Moves c w run_id now))
        (λ clock_events.
          Does-bind c s.policy now decide (λ events. reply λ _. clock_events ++ events)
            (Does-at c s.policy now decide (on_decision-Moves run_id now interface decision))
            (λ events. Does-reply c s.policy now (λ _. clock_events ++ events)))
        s refl
