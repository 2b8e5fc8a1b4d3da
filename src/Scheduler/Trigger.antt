-- ===== src/Scheduler/Trigger.antt =====
-- src/scheduler.rs: `observe_interface_health` and the triggers that it keeps for each interface.
pub mod Moves
pub mod Laws
pub mod Once
use netband.Base.{
  Bool, true, false, Option, none, some, List, [], ◌∷◌, ◌++◌, String, if◌then◌else◌, ◌||◌,
}
use netband.Chrono.{Chrono, Instant}
use netband.Dict.{get, insert}
use netband.Model
use netband.Model.{
  SchedulerAction, SchedulerReason, Outcome, TriggerReason, Message, MeasurementEvent,
}
use netband.Health.{HealthDecision, HealthSnapshot, DegradationReason}
use netband.Scheduler.Types.{
  ProviderState, SchedulerPolicy, PendingTrigger, InterfaceTriggerState, DeferredOpportunity,
}
use netband.Scheduler.Time.{add_duration}
use netband.Scheduler.Admission.{event, for_interface, interface_key}
use netband.Scheduler.Store.{Storage, Scheduler, M, ◌>>=◌, save, reply}
use netband.Scheduler.Clock.{advance_clock}

-- `InterfaceTriggerState::default()`.
abbrev pub default_trigger : InterfaceTriggerState
default_trigger = record { pending = none; latched = false }

abbrev pub or_default : Option InterfaceTriggerState → InterfaceTriggerState
or_default none = default_trigger
or_default (some t) = t

abbrev pub is_some {ℓ} : {A : Type ℓ} → Option A → Bool
is_some none = false
is_some (some a) = true

unfoldable pub interface_trigger : ProviderState → Option String → InterfaceTriggerState
interface_trigger state interface =
    or_default (get (interface_key interface) state.interface_triggers)

-- What `interface_trigger_mut` makes of the entry, given the value that is written to it.
unfoldable pub set_trigger : ProviderState → Option String → InterfaceTriggerState → ProviderState
set_trigger state interface t = record state {
  interface_triggers = insert (interface_key interface) t state.interface_triggers;
}

-- `self.interface_trigger_mut(interface).pending = None`.
unfoldable pub clear_pending : Option String → ProviderState → ProviderState
unfolding set_trigger interface_trigger
clear_pending interface state =
    set_trigger state interface (record (interface_trigger state interface) { pending = none })

abbrev pub trigger_reason_of : DegradationReason → TriggerReason
trigger_reason_of DegradationReason.rtt = TriggerReason.ping_rtt
trigger_reason_of DegradationReason.loss = TriggerReason.ping_loss
trigger_reason_of DegradationReason.loss_and_rtt = TriggerReason.ping_loss

-- A degradation renames the deferred opportunity, if there is one, and is pending otherwise.
abbrev merge_deferred :
    TriggerReason → Option String → Option DeferredOpportunity → Option DeferredOpportunity
merge_deferred reason interface none = none
merge_deferred reason interface (some d) =
    some (record d { reason = reason; interface = interface })

unfoldable pub latch :
    TriggerReason → Option String → Instant → Instant → ProviderState → ProviderState
unfolding set_trigger
latch reason interface now expires_at state =
    let pending =
      if is_some state.deferred
      then none
      else some (record { reason = reason; created_at_utc = now; expires_at_utc = expires_at }) in
    set_trigger (record state { deferred = merge_deferred reason interface state.deferred })
      interface (record { pending = pending; latched = true })

unfoldable pub disarm : Option String → ProviderState → ProviderState
unfolding set_trigger
disarm interface state = set_trigger state interface default_trigger

module _ {D : Type 0} (c : Chrono) (w : Storage D) where
  on_degraded :
      String
      → Instant
      → Option String
      → HealthSnapshot
      → DegradationReason
      → M D (List MeasurementEvent)
  on_degraded run_id now interface snapshot reason s =
      let why = trigger_reason_of reason in
      let expires_at = add_duration c now s.policy.pending_ttl in
      let action =
        if is_some s.state.deferred
        then SchedulerAction.trigger_merged_with_deferred
        else SchedulerAction.trigger_pending in
      let message = Message.degraded snapshot.loss_pct snapshot.p95_rtt_ms expires_at in
      let report : M D (List MeasurementEvent) = reply λ t.
        event c t.policy t.state run_id now Outcome.deferred why (for_interface interface) action
          SchedulerReason.health_degraded message
        ∷ [] in
      save w (latch why interface now expires_at) report s

  cancelled_events :
      String → Instant → Option String → Option PendingTrigger → M D (List MeasurementEvent)
  cancelled_events run_id now interface none = reply λ _. []
  cancelled_events run_id now interface (some pending) = reply λ s.
      event c s.policy s.state run_id now Outcome.expired pending.reason (for_interface interface)
        SchedulerAction.trigger_cancelled SchedulerReason.health_recovered Message.health_recovered
      ∷ []

  on_recovered : String → Instant → Option String → M D (List MeasurementEvent)
  unfolding cancelled_events
  on_recovered run_id now interface s =
      let trigger = interface_trigger s.state interface in
      let report = cancelled_events run_id now interface trigger.pending in
      if is_some trigger.pending || trigger.latched
      then save w (disarm interface) report s
      else report s

  -- The `match` on the decision, after the clock has been advanced.
  unfoldable pub on_decision :
      String → Instant → Option String → HealthDecision → M D (List MeasurementEvent)
  unfolding on_degraded on_recovered
  on_decision run_id now interface (HealthDecision.degraded snapshot reason) s =
      if (interface_trigger s.state interface).latched
      then reply (λ _. []) s
      else on_degraded run_id now interface snapshot reason s
  on_decision run_id now interface (HealthDecision.recovered snapshot) s =
      on_recovered run_id now interface s
  on_decision run_id now interface (HealthDecision.healthy snapshot) s = reply (λ _. []) s

  unfoldable pub observe_interface_health :
      String → Instant → Option String → HealthDecision → M D (List MeasurementEvent)
  unfolding on_decision
  observe_interface_health run_id now interface decision = do
    clock_events ← advance_clock c w run_id now
    events ← on_decision run_id now interface decision
    reply λ _. clock_events ++ events

  -- `observe_health`.
  unfoldable pub observe_health : String → Instant → HealthDecision → M D (List MeasurementEvent)
  unfolding observe_interface_health
  observe_health run_id now decision = observe_interface_health run_id now none decision
