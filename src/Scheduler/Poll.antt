-- ===== src/Scheduler/Poll.antt =====
-- src/scheduler.rs: `poll_interfaces`, in its stages: expired triggers, the deferred opportunity,
-- then due slots and pending triggers.
pub mod Select
pub mod Moves
pub mod Oldest
pub mod Laws
pub mod Reserve
use netband.Base.{
  ℕ, Bool, true, false, not, ◌&&◌, ◌||◌, Option, none, some, List, [], ◌∷◌, ◌++◌, String, ltb, leb,
  ◌==◌, if◌then◌else◌, map,
}
use netband.Chrono.{Chrono, Instant}
use netband.Dict.{Dict}
use netband.Model
use netband.Model.{
  SchedulerAction, SchedulerReason, ErrorKind, Outcome, TriggerReason, Message, MeasurementEvent,
  is_scheduled, is_daily_cap,
}
use netband.Scheduler.Types.{
  ProviderState, SchedulerPolicy, PendingTrigger, DeferredOpportunity, BandwidthOpportunity,
  SchedulerPoll, BlockReason,
}
use netband.Scheduler.Time.{add_duration, day_end}
use netband.Scheduler.Admission.{
  block_reason, event, no_context, new_context, with_interface, for_interface, interface_from_key,
}
use netband.Scheduler.Store.{Storage, Scheduler, M, ◌>>=◌, save, reply}
use netband.Scheduler.Clock.{advance_clock}
use netband.Scheduler.Trigger.{is_some, clear_pending}
use Select.{
  expired_triggers, clear_expired, remove_due_slots, remove_first_slot, due_slot, oldest_eligible,
}

abbrev pub max_rate_limit_attempts : ℕ
max_rate_limit_attempts = 5

abbrev nothing : {D : Type 0} → List MeasurementEvent → M D SchedulerPoll
nothing events = reply λ _. record { opportunity = none; events = events }

-- `is_none_or(|deadline| now >= deadline)`.
abbrev pub cooled : Instant → Option Instant → Bool
cooled now none = true
cooled now (some deadline) = leb deadline now

abbrev reason_or_scheduled : Option (String × PendingTrigger) → TriggerReason
reason_or_scheduled none = TriggerReason.scheduled
reason_or_scheduled (some (key, t)) = t.reason

abbrev pub pending_interface : Option (String × PendingTrigger) → Option String
pending_interface none = none
pending_interface (some (key, t)) = interface_from_key key

abbrev requested_at : Instant → Option (String × PendingTrigger) → Instant
requested_at now none = now
requested_at now (some (key, t)) = t.created_at_utc

abbrev pub when {ℓ} : {A : Type ℓ} → Bool → (A → A) → A → A
when true f a = f a
when false f a = a

-- What a block leaves of the opportunity: due slots go, and so does the trigger if the block lasts
-- for the rest of the day.
abbrev pub after_block :
    Instant → Bool → Bool → Option (String × PendingTrigger) → ProviderState → ProviderState
after_block now due terminal pending state =
    when (terminal && is_some pending) (clear_pending (pending_interface pending))
      (when due (remove_due_slots now) state)

-- What a start leaves of the plan: a triggered start uses up the next slot.
abbrev pub after_start : Instant → Bool → TriggerReason → ProviderState → ProviderState
after_start now due reason state =
    when (not (is_scheduled reason)) remove_first_slot (when due (remove_due_slots now) state)

module _ {D : Type 0} (c : Chrono) (w : Storage D) where
  block_opportunity :
      String
      → Instant
      → List MeasurementEvent
      → Option Instant
      → Option (String × PendingTrigger)
      → BlockReason
      → M D SchedulerPoll
  block_opportunity run_id now events due pending b s =
      let terminal =
        is_daily_cap b.kind
        || leb (day_end c (c.date_naive now)) (add_duration c now s.policy.min_spacing) in
      let report : M D SchedulerPoll = reply λ t. record {
        opportunity = none;
        events =
            events
            ++ event c t.policy t.state run_id now
                (if terminal then Outcome.suppressed else Outcome.deferred)
                (reason_or_scheduled pending)
                (with_interface (new_context (some b.kind) b.cooldown_until)
                  (pending_interface pending))
                b.action b.reason b.message
              ∷ [];
      } in
      save w (after_block now (is_some due) terminal pending) report s

  start_opportunity :
      String
      → Instant
      → List MeasurementEvent
      → Option Instant
      → Option (String × PendingTrigger)
      → M D SchedulerPoll
  start_opportunity run_id now events due pending s =
      let reason = reason_or_scheduled pending in
      let opportunity : BandwidthOpportunity = record {
        reason = reason;
        scheduled_at_utc = if is_some pending then none else due;
        requested_at_utc = requested_at now pending;
        interface = pending_interface pending;
      } in
      let report : M D SchedulerPoll = reply λ t. record {
        opportunity = some opportunity;
        events =
            events
            ++ event c t.policy t.state run_id now Outcome.scheduled reason no_context
                SchedulerAction.bandwidth_start SchedulerReason.opportunity_ready
                Message.bandwidth_start
              ∷ [];
      } in
      save w (after_start now (is_some due) reason) report s

  -- A due slot or an eligible trigger, if the policy lets it start.
  poll_candidate :
      String
      → Instant
      → List MeasurementEvent
      → Option Instant
      → Option (String × PendingTrigger)
      → Option BlockReason
      → M D SchedulerPoll
  unfolding block_opportunity start_opportunity
  poll_candidate run_id now events due pending (some b) s =
      block_opportunity run_id now events due pending b s
  poll_candidate run_id now events due pending none s =
      start_opportunity run_id now events due pending s

  poll_due : String → Instant → Dict Bool → List MeasurementEvent → M D SchedulerPoll
  unfolding poll_candidate
  poll_due run_id now latest_success events s =
      let due = due_slot now s.state in
      let pending = oldest_eligible latest_success (is_some due) s.state.interface_triggers in
      if not (is_some pending) && not (is_some due)
      then nothing events s
      else poll_candidate run_id now events due pending (block_reason c s.policy s.state now) s

  -- Goes on once the deferred opportunity has been dropped.
  report_dropped :
      String → Instant → Dict Bool → List MeasurementEvent → DeferredOpportunity → M D SchedulerPoll
  unfolding poll_due
  report_dropped run_id now latest_success events d s =
      let why =
        if leb d.expires_at_utc now
        then SchedulerReason.day_limit
        else SchedulerReason.attempt_limit in
      poll_due run_id now latest_success
        (events
          ++ event c s.policy s.state run_id now Outcome.expired d.reason
              (new_context none s.state.cooldown_until_utc) SchedulerAction.deferred_expired why
              Message.day_or_attempt_limit
            ∷ [])
        s

  drop_deferred :
      String → Instant → Dict Bool → List MeasurementEvent → DeferredOpportunity → M D SchedulerPoll
  unfolding report_dropped
  drop_deferred run_id now latest_success events d =
      save w (λ state. record state { deferred = none })
        (report_dropped run_id now latest_success events d)

  poll_deferred :
      String
      → Instant
      → Dict Bool
      → List MeasurementEvent
      → Option DeferredOpportunity
      → M D SchedulerPoll
  unfolding poll_due drop_deferred
  poll_deferred run_id now latest_success events none s =
      poll_due run_id now latest_success events s
  poll_deferred run_id now latest_success events (some d) s =
      let opportunity : BandwidthOpportunity = record {
        reason = d.reason;
        scheduled_at_utc = d.scheduled_at_utc;
        requested_at_utc = d.created_at_utc;
        interface = d.interface;
      } in
      if leb d.expires_at_utc now || leb max_rate_limit_attempts d.rate_limit_attempts
      then drop_deferred run_id now latest_success events d s
      else if cooled now s.state.cooldown_until_utc
      then reply (λ _. record { opportunity = some opportunity; events = events }) s
      else poll_due run_id now latest_success events s

  expired_events :
      Scheduler D → String → Instant → List (String × PendingTrigger) → List MeasurementEvent
  expired_events s run_id now [] = []
  expired_events s run_id now ((key, trigger) ∷ rest) =
      event c s.policy s.state run_id now Outcome.expired trigger.reason
        (for_interface (interface_from_key key)) SchedulerAction.trigger_expired
        SchedulerReason.trigger_ttl_expired Message.trigger_ttl
      ∷ expired_events s run_id now rest

  expire_triggers : String → Instant → List (String × PendingTrigger) → M D (List MeasurementEvent)
  unfolding expired_events
  expire_triggers run_id now [] = reply λ _. []
  expire_triggers run_id now (e ∷ es) =
      save w (clear_expired (e ∷ es)) (reply λ t. expired_events t run_id now (e ∷ es))

  poll_current : String → Instant → Dict Bool → List MeasurementEvent → M D SchedulerPoll
  unfolding poll_deferred
  poll_current run_id now latest_success events s =
      poll_deferred run_id now latest_success events s.state.deferred s

  poll_ready : String → Instant → Dict Bool → List MeasurementEvent → M D SchedulerPoll
  unfolding expire_triggers poll_current
  poll_ready run_id now latest_success events s =
      let expired = expired_triggers now s.state.interface_triggers in
      (do
        more ← expire_triggers run_id now expired
        poll_current run_id now latest_success (events ++ more))
        s

  pub poll_observed : String → Instant → Dict Bool → List MeasurementEvent → M D SchedulerPoll
  unfolding poll_ready
  poll_observed run_id now latest_success events s =
      if ltb now s.state.last_observed_utc
      then nothing events s
      else poll_ready run_id now latest_success events s

  unfoldable pub poll_interfaces : String → Instant → Dict Bool → M D SchedulerPoll
  unfolding poll_observed
  poll_interfaces run_id now latest_success = do
    events ← advance_clock c w run_id now
    poll_observed run_id now latest_success events

  -- `poll`, for the default interface.
  unfoldable pub poll : String → Instant → Bool → M D SchedulerPoll
  unfolding poll_interfaces
  poll run_id now latest_round_has_success =
      poll_interfaces run_id now (("", latest_round_has_success) ∷ [])
