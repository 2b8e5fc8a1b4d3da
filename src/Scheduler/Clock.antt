-- ===== src/Scheduler/Clock.antt =====
-- src/scheduler.rs: `reconcile_day`, `replan_remaining` and `advance_clock`.
pub mod Moves
pub mod Laws
use netband.Base.{
  ℕ, ◌-◌, Bool, true, false, Option, none, some, List, [], ◌∷◌, String, ltb, leb, if◌then◌else◌,
  retain,
}
use netband.Chrono.{Chrono, Instant}
use netband.Model.{
  SchedulerAction, SchedulerReason, ErrorKind, Outcome, TriggerReason, Message, MeasurementEvent,
}
use netband.Scheduler.Types.{ProviderState, SchedulerPolicy}
use netband.Scheduler.Time.{day_end}
use netband.Scheduler.Plan.{plan_interval, plan_full_day}
use netband.Scheduler.Admission.{runs_on_day, event, new_context}
use netband.Scheduler.Store.{Storage, Scheduler, M, ok, save, reply}

-- `filter(|deadline| *deadline > now)`.
abbrev pub still_ahead : Instant → Option Instant → Option Instant
still_ahead now none = none
still_ahead now (some deadline) = if ltb now deadline then some deadline else none

-- The state of a new day, before its slots are planned.
abbrev pub new_day : Chrono → ProviderState → Instant → ProviderState
new_day c state now = record state {
  day_utc = c.date_naive now;
  runs = retain (λ run. leb (c.date_naive now) (c.date_naive run)) state.runs;
  deferred = none;
  interface_triggers = [];
  cooldown_until_utc = still_ahead now state.cooldown_until_utc;
}

unfoldable pub reconcile_day : Chrono → SchedulerPolicy → ProviderState → Instant → ProviderState
reconcile_day c policy state now =
    let fresh = new_day c state now in
    let planned = plan_full_day c fresh policy now in
    if leb (c.date_naive now) state.day_utc
    then state
    else record fresh { slots = planned.0; rng_state = planned.1 }

unfoldable pub replan_remaining : Chrono → SchedulerPolicy → ProviderState → Instant → ProviderState
replan_remaining c policy state now =
    let day = c.date_naive now in
    let remaining = policy.daily_max - runs_on_day c state day in
    let planned = plan_interval c state policy now (day_end c day) remaining in
    record state { slots = planned.0; rng_state = planned.1 }

-- The state after an observation of the clock that does not go back.
abbrev pub observed : Chrono → SchedulerPolicy → Instant → ProviderState → ProviderState
observed c policy now state = record (reconcile_day c policy state now) { last_observed_utc = now }

module _ {D : Type 0} (c : Chrono) (w : Storage D) where
  unfoldable pub rollback_event : Scheduler D → String → Instant → MeasurementEvent
  rollback_event s run_id now =
      event c s.policy s.state run_id now Outcome.suppressed TriggerReason.scheduled
        (new_context (some ErrorKind.internal) none) SchedulerAction.clock_rollback
        SchedulerReason.clock_rollback (Message.clock_rollback s.state.last_observed_utc now)

  unfoldable pub advance_clock : String → Instant → M D (List MeasurementEvent)
  unfolding rollback_event
  advance_clock run_id now s =
      if ltb now s.state.last_observed_utc
      then (s, ok (rollback_event s run_id now ∷ []))
      else save w (observed c s.policy now) (reply (λ _. [])) s
