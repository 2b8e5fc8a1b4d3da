-- ===== src/Scheduler/Admission.antt =====
-- src/scheduler.rs: `runs_on_day` and `block_reason`, the test that every start must pass, and the
-- events that report a decision.
pub mod Laws
use netband.Base.{
  ℕ, ◌+◌, ◌-◌, ◌^◌, min, Bool, true, false, not, ◌&&◌, ◌||◌, Option, none, some, List, String, ltb,
  leb, ◌==◌, if◌then◌else◌, count_if, str_eq,
}
use netband.Chrono.{Chrono, Instant, Day}
use netband.Model
use netband.Model.{
  SchedulerAction, SchedulerReason, ErrorKind, EventKind, Outcome, TriggerReason, Message,
  MeasurementEvent, is_mlab, is_policy_kind, new_event,
}
use netband.Scheduler.Types.{ProviderState, SchedulerPolicy, BlockReason, EventContext}
use netband.Scheduler.Time.{add_duration}

abbrev pub u32_max : ℕ
u32_max = 2 ^ 32 - 1

-- The cap that M-Lab sets, whatever the configuration says.
abbrev pub mlab_daily_max : ℕ
mlab_daily_max = 4

abbrev pub on_day : Chrono → Day → Instant → Bool
on_day c day run = c.date_naive run == day

-- `count().try_into().unwrap_or(u32::MAX)`.
unfoldable pub runs_on_day : Chrono → ProviderState → Day → ℕ
runs_on_day c state day = min (count_if (on_day c day) state.runs) u32_max

-- The last two tests of `block_reason`.
abbrev spacing_block : Chrono → SchedulerPolicy → Instant → Option Instant → Option BlockReason
spacing_block c policy now none = none
spacing_block c policy now (some last) =
    let eligible = add_duration c last policy.min_spacing in
    if ltb now eligible
    then some (record {
      action = SchedulerAction.deferred;
      reason = SchedulerReason.minimum_spacing;
      kind = ErrorKind.provider_cooldown;
      cooldown_until = some eligible;
      message = Message.minimum_spacing eligible;
    })
    else none

abbrev cooldown_block : Instant → Option Instant → Option BlockReason → Option BlockReason
cooldown_block now none otherwise = otherwise
cooldown_block now (some deadline) otherwise =
    if ltb now deadline
    then some (record {
      action = SchedulerAction.deferred;
      reason = SchedulerReason.provider_cooldown;
      kind = ErrorKind.provider_cooldown;
      cooldown_until = some deadline;
      message = Message.provider_cooldown deadline;
    })
    else otherwise

unfoldable pub block_reason :
    Chrono → SchedulerPolicy → ProviderState → Instant → Option BlockReason
block_reason c policy state now =
    let used = runs_on_day c state (c.date_naive now) in
    let mlab_hard_cap_reached = is_mlab policy.provider_kind && leb mlab_daily_max used in
    let configured_cap_reached = policy.daily_max == 0 || leb policy.daily_max used in
    let maximum =
      if policy.force_limits && is_mlab policy.provider_kind
      then mlab_daily_max
      else policy.daily_max in
    if mlab_hard_cap_reached || (not policy.force_limits && configured_cap_reached)
    then some (record {
      action = SchedulerAction.suppressed;
      reason = SchedulerReason.daily_cap;
      kind = ErrorKind.daily_cap;
      cooldown_until = none;
      message = Message.daily_cap used maximum;
    })
    else if policy.force_limits
    then none
    else cooldown_block now state.cooldown_until_utc
        (spacing_block c policy now state.last_started_at_utc)

abbrev pub no_context : EventContext
no_context = record { error_kind = none; cooldown_until = none; interface = none }

-- `EventContext::new`.
abbrev pub new_context : Option ErrorKind → Option Instant → EventContext
new_context kind until = record { error_kind = kind; cooldown_until = until; interface = none }

abbrev pub with_interface : EventContext → Option String → EventContext
with_interface context interface = record context { interface = interface }

-- `EventContext::for_interface`.
abbrev pub for_interface : Option String → EventContext
for_interface interface = with_interface no_context interface

abbrev pub drop_policy_kind : Option ErrorKind → Option ErrorKind
drop_policy_kind none = none
drop_policy_kind (some kind) = if is_policy_kind kind then none else some kind

-- `Scheduler::event`.
unfoldable pub event :
    Chrono
    → SchedulerPolicy
    → ProviderState
    → String
    → Instant
    → Outcome
    → TriggerReason
    → EventContext
    → SchedulerAction
    → SchedulerReason
    → Message
    → MeasurementEvent
event c policy state run_id now outcome reason context action why message =
    record (new_event run_id EventKind.scheduler outcome now) {
      trigger_reason = some reason;
      provider_id = some policy.provider_id;
      provider_kind = some policy.provider_kind;
      interface = context.interface;
      scheduler_not_before_utc = context.cooldown_until;
      provider_accounting_date = some (c.date_naive now);
      provider_daily_starts = some (runs_on_day c state (c.date_naive now));
      scheduler_action = some action;
      scheduler_reason = some why;
      message = some message;
      error_kind = drop_policy_kind context.error_kind;
    }

-- `interface_key` and `interface_from_key`.
abbrev pub interface_key : Option String → String
interface_key none = ""
interface_key (some name) = name

abbrev pub interface_from_key : String → Option String
interface_from_key key = if str_eq key "" then none else some key
