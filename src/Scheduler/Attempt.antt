-- ===== src/Scheduler/Attempt.antt =====
-- src/scheduler.rs: `finish_attempt`, with `rate_limit_from_report`, `next_backoff` and
-- `BandwidthOpportunity::apply_timing`.
pub mod RateLimit
pub mod Detection
pub mod Moves
pub mod Laws
use netband.Base.{
  ℕ, suc, ◌+◌, ◌-◌, ◌*◌, ◌^◌, min, max, Bool, true, false, not, ◌&&◌, Option, none, some, List, [],
  ◌∷◌, String, ltb, leb, if◌then◌else◌, retain, map,
}
use netband.Chrono.{Chrono, Instant, Duration}
use netband.Model
use netband.Model.{
  SchedulerAction, SchedulerReason, ErrorKind, Outcome, Message, RetryText, MeasurementEvent,
  is_scheduled, is_bandwidth,
}
use netband.Scheduler.Types
use netband.Scheduler.Types.{
  ProviderState, SchedulerPolicy, DeferredOpportunity, BandwidthOpportunity, BandwidthReport,
}
use netband.Scheduler.Time.{add_duration, day_end}
use netband.Scheduler.Random.{jitter_duration}
use netband.Scheduler.Admission.{event, new_context, with_interface}
use netband.Scheduler.Store.{Storage, Scheduler, M, save, reply}
use netband.Scheduler.Clock.{replan_remaining}
use netband.Scheduler.Trigger.{clear_pending}
use netband.Scheduler.Poll.{max_rate_limit_attempts}
use RateLimit.{rate_limit_from_report, successful_request}

abbrev apply_timing_to : BandwidthOpportunity → MeasurementEvent → MeasurementEvent
apply_timing_to o e = record e {
  trigger_reason = some o.reason;
  scheduled_at_utc = o.scheduled_at_utc;
  requested_at_utc =
      if is_bandwidth e.event_kind then some o.requested_at_utc else e.requested_at_utc;
}

unfoldable pub apply_timing : BandwidthOpportunity → BandwidthReport → BandwidthReport
apply_timing o report = record report { events = map (apply_timing_to o) report.events }

-- `Duration::MAX`, in nanoseconds.
abbrev pub duration_max : Duration
duration_max = 2 ^ 64 * 1_000_000_000 - 1

-- `checked_mul(..).unwrap_or(cooldown_max).min(cooldown_max)`.
unfoldable pub backoff_base : SchedulerPolicy → ℕ → Duration
backoff_base policy step =
    let scaled = policy.cooldown_initial * 2 ^ min step 4 in
    min (if leb scaled duration_max then scaled else policy.cooldown_max) policy.cooldown_max

-- `saturating_add(1).min(4)` on `u8`.
abbrev pub next_step : ℕ → ℕ
next_step step = min (min (step + 1) 255) 4

-- The new state, and the backoff.
unfoldable pub next_backoff : SchedulerPolicy → ProviderState → ProviderState × Duration
next_backoff policy state =
    let jittered = jitter_duration state.rng_state (backoff_base policy state.backoff_step) in
    (
      record state { backoff_step = next_step state.backoff_step; rng_state = jittered.0 },
      jittered.1,
    )

-- The provider's deadline, or the fallback backoff from `now`; then no earlier than a cooldown that
-- is already set.
abbrev pub own_deadline :
    Chrono → SchedulerPolicy → Instant → Option Instant → ProviderState → ProviderState × Instant
own_deadline c policy now (some deadline) state = (state, deadline)
own_deadline c policy now none state =
    let backoff = next_backoff policy state in (backoff.0, add_duration c now backoff.1)

abbrev pub no_earlier : Option Instant → Instant → Instant
no_earlier none deadline = deadline
no_earlier (some existing) deadline = max existing deadline

abbrev pub step_if_some {ℓ} : {A : Type ℓ} → Option A → ℕ → ℕ
step_if_some none step = step
step_if_some (some _) step = next_step step

-- `saturating_add(1)` on the attempts so far, or the first.
abbrev pub next_attempts : Option DeferredOpportunity → ℕ
next_attempts none = 1
next_attempts (some d) = min (d.rate_limit_attempts + 1) 255

abbrev pub deferral : BandwidthOpportunity → ℕ → Instant → Instant → Option DeferredOpportunity
deferral o attempts deadline day_deadline =
    if ltb attempts max_rate_limit_attempts && ltb deadline day_deadline
    then some (record {
      reason = o.reason;
      interface = o.interface;
      created_at_utc = o.requested_at_utc;
      scheduled_at_utc = o.scheduled_at_utc;
      expires_at_utc = day_deadline;
      rate_limit_attempts = attempts;
    })
    else none

-- The cooldown is set, the backoff goes up where the provider named the deadline, and an attempt
-- with no reservation is deferred.
unfoldable pub cool :
    Chrono
    → Instant
    → BandwidthOpportunity
    → Bool
    → Types.RateLimit
    → Instant
    → ProviderState
    → ProviderState
cool c now o reserved limit deadline state = record state {
  cooldown_until_utc = some deadline;
  backoff_step = step_if_some limit.deadline state.backoff_step;
  deferred =
      if reserved
      then none
      else deferral o (next_attempts state.deferred) deadline (day_end c (c.date_naive now));
}

-- The state after a rate limit, and the deadline that it sets.
unfoldable pub rate_limited :
    Chrono
    → SchedulerPolicy
    → Instant
    → BandwidthOpportunity
    → Bool
    → Types.RateLimit
    → ProviderState
    → ProviderState × Instant
rate_limited c policy now o reserved limit state =
    let own = own_deadline c policy now limit.deadline state in
    let deadline = no_earlier (own.0).cooldown_until_utc own.1 in
    let cooling = cool c now o reserved limit deadline own.0 in
    (replan_remaining c policy (clear_pending o.interface cooling) now, deadline)

abbrev pub settled : Bool → ProviderState → ProviderState
settled true state = record state { deferred = none; cooldown_until_utc = none; backoff_step = 0 }
settled false state = record state { deferred = none }

-- The state after an attempt that met no rate limit.
unfoldable pub finished :
    Chrono
    → SchedulerPolicy
    → Instant
    → BandwidthOpportunity
    → Bool
    → Bool
    → ProviderState
    → ProviderState
finished c policy now o reserved successful state =
    let cleared = clear_pending o.interface (settled successful state) in
    if not (is_scheduled o.reason)
    then replan_remaining c policy cleared now
    else if reserved
    then record cleared {
      slots = retain (λ slot. leb (add_duration c now policy.min_spacing) slot) cleared.slots;
    }
    else cleared

abbrev retry_text : Types.RateLimit → RetryText
retry_text limit = elim limit.retry_after [
  | some ms ↦ RetryText.millis ms
  | none ↦ elim limit.deadline [ none ↦ RetryText.fallback | some t ↦ RetryText.unrepresentable ]
]

abbrev attempts_of : Option DeferredOpportunity → ℕ
attempts_of none = 0
attempts_of (some d) = d.rate_limit_attempts

-- The events, and the report with the opportunity's timing.
abbrev pub Finished : Type 0
Finished = List MeasurementEvent × BandwidthReport

module _ {D : Type 0} (c : Chrono) (w : Storage D) where
  finish_limited :
      String → Instant → BandwidthOpportunity → BandwidthReport → Types.RateLimit → M D Finished
  finish_limited run_id now o report limit s =
      let after = rate_limited c s.policy now o report.reserved limit s.state in
      let answer : M D Finished = reply λ t. (
        event c t.policy t.state run_id now
              (if report.reserved then Outcome.suppressed else Outcome.deferred) o.reason
              (with_interface (new_context (some ErrorKind.provider_cooldown) (some after.1))
                o.interface)
              SchedulerAction.rate_limit SchedulerReason.provider_rate_limit
              (Message.rate_limit limit.stage limit.status (retry_text limit) report.reserved
                (attempts_of t.state.deferred))
            ∷ [],
        apply_timing o report,
      ) in
      save w (λ state. (rate_limited c s.policy now o report.reserved limit state).0) answer s

  finish_plain : Instant → BandwidthOpportunity → BandwidthReport → M D Finished
  finish_plain now o report s =
      let after = finished c s.policy now o report.reserved (successful_request report.events) in
      save w after (reply λ _. ([], apply_timing o report)) s

  finish_with :
      String
      → Instant
      → BandwidthOpportunity
      → BandwidthReport
      → Option Types.RateLimit
      → M D Finished
  unfolding finish_limited finish_plain
  finish_with run_id now o report none = finish_plain now o report
  finish_with run_id now o report (some limit) = finish_limited run_id now o report limit

  unfoldable pub finish_attempt :
      String → Instant → BandwidthOpportunity → BandwidthReport → M D Finished
  unfolding finish_with
  finish_attempt run_id now o report s =
      finish_with run_id now o report (rate_limit_from_report s.policy.provider_kind report.events)
        s
