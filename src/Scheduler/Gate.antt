-- ===== src/Scheduler/Gate.antt =====
-- The gate through which src/bandwidth.rs asks for a start, `apply_admission` there, and what else
-- src/scheduler.rs offers its callers: `snapshot`, `flush` and `open`.
pub mod Laws
use netband.Base.{
  ℕ, Bool, true, false, Option, none, some, List, [], ◌∷◌, String, if◌then◌else◌, retain,
}
use netband.Chrono.{Chrono, Instant, Day}
use netband.Dict.{get}
use netband.Model.{TriggerReason, MeasurementEvent, is_bandwidth, is_success}
use netband.Scheduler.Types.{
  SchedulerPolicy, PendingTrigger, InterfaceTriggerState, DeferredOpportunity, BandwidthReport,
  Reservation, SchedulerError, IoErrorKind,
}
use netband.Scheduler.Store.{Storage, Scheduler, Result, ok, err, M, persist}
use netband.Scheduler.Admission.{on_day}
use netband.Scheduler.Reserve.{reserve_run}
use netband.Scheduler.Open.{open_seeded}

pub data AdmissionReservation : Type 0 where
  untracked : AdmissionReservation
  reserved : Day → ℕ → AdmissionReservation

-- `BandwidthReport::exit_code`.
abbrev exit_code : BandwidthReport → ℕ
exit_code report = if is_success report.outcome then 0 else 1

abbrev is_reserved : AdmissionReservation → Bool
is_reserved untracked = false
is_reserved (reserved date starts) = true

abbrev admit_event : AdmissionReservation → MeasurementEvent → MeasurementEvent
admit_event untracked e = record e { bandwidth_start_reserved = some false }
admit_event (reserved date starts) e = record e {
  bandwidth_start_reserved = some true;
  provider_accounting_date = some date;
  provider_daily_starts = some starts;
}

admit_events : AdmissionReservation → List MeasurementEvent → List MeasurementEvent
admit_events r [] = []
admit_events r (e ∷ es) =
    (if is_bandwidth e.event_kind then admit_event r e else e) ∷ admit_events r es

unfoldable pub apply_admission : BandwidthReport → AdmissionReservation → BandwidthReport
unfolding admit_events
apply_admission report r = record report {
  reserved = is_reserved r;
  events = admit_events r report.events;
}

abbrev is_permission_denied : SchedulerError → Bool
is_permission_denied (SchedulerError.io path IoErrorKind.permission_denied) = true
is_permission_denied _ = false

pub record SchedulerSnapshot : Type 0 where
  pub provider_id : String
  pub day_utc : Day
  pub slots : List Instant
  pub runs : List Instant
  pub last_started_at_utc : Option Instant
  pub cooldown_until_utc : Option Instant
  pub backoff_step : ℕ
  pub deferred_attempts : Option ℕ
  pub pending_trigger : Option TriggerReason
  pub trigger_latched : Bool

abbrev attempts_if_deferred : Option DeferredOpportunity → Option ℕ
attempts_if_deferred none = none
attempts_if_deferred (some d) = some d.rate_limit_attempts

abbrev reason_if_pending : Option PendingTrigger → Option TriggerReason
reason_if_pending none = none
reason_if_pending (some t) = some t.reason

abbrev pending_reason : Option InterfaceTriggerState → Option TriggerReason
pending_reason none = none
pending_reason (some t) = reason_if_pending t.pending

abbrev is_latched : Option InterfaceTriggerState → Bool
is_latched none = false
is_latched (some t) = t.latched

module _ {D : Type 0} (c : Chrono) (w : Storage D) where
  -- `Scheduler::snapshot`, of the default interface.
  unfoldable snapshot : Scheduler D → SchedulerSnapshot
  snapshot s =
      let state = s.state in
      let trigger = get "" state.interface_triggers in
      record {
        provider_id = s.policy.provider_id;
        day_utc = state.day_utc;
        slots = state.slots;
        runs = retain (on_day c state.day_utc) state.runs;
        last_started_at_utc = state.last_started_at_utc;
        cooldown_until_utc = state.cooldown_until_utc;
        backoff_step = state.backoff_step;
        deferred_attempts = attempts_if_deferred state.deferred;
        pending_trigger = pending_reason trigger;
        trigger_latched = is_latched trigger;
      }

  -- `flush` writes the store as it is.
  unfoldable flush : M D (Unit {0})
  flush = persist w

  -- `open`, with the seed that `random_seed` draws as an argument.
  unfoldable open_scheduler : D → SchedulerPolicy → Instant → ℕ → D × Result (Scheduler D)
  open_scheduler d policy now seed = open_seeded c w d policy now seed

  admission_of : Scheduler D × Result Reservation → Scheduler D × Result AdmissionReservation
  admission_of (s, ok r) = (s, ok (reserved r.accounting_date r.daily_bandwidth_starts))
  admission_of (s, err e) = (s, err e)

  -- `ReservationGate::reserve`; the text of an error is made of the error.
  unfoldable pub reserve : Instant → M D AdmissionReservation
  unfolding admission_of
  reserve started_at s = admission_of (reserve_run c w started_at s)
