-- ===== src/Monitor.antt =====
-- src/monitor.rs: the state of an interface and `select_bandwidth_interface`. The resolver and the
-- readings of the clocks are functions of the interface, as no interface is asked for twice; the
-- resolver gives the text of its error. The health window is not touched.
pub mod Backoff
pub mod Selection
use netband.Base.{
  ℕ, zero, suc, ◌+◌, ◌-◌, ◌*◌, ◌^◌, min, Bool, true, false, not, ◌&&◌, Option, none, some, List, [],
  ◌∷◌, ◌++◌, String, str_eq, leb, length, if◌then◌else◌,
}
use netband.Chrono.{Instant}
use netband.Model.{
  MeasurementEvent, EventKind, Outcome, ErrorKind, SchedulerAction, SchedulerReason, Message,
  new_event,
}
use netband.Scheduler.Types.{BandwidthOpportunity}
use netband.Interfaces.{FairInterfaceSelector, contains, select}

pub record InterfaceRuntime (W : Type 0) : Type 0 where
  pub name : String
  pub health : W
  pub latest_success : Bool
  pub degraded : Bool
  pub available : Bool
  pub retry_at : Option Instant
  pub backoff_step : ℕ

-- A second, in nanoseconds.
abbrev pub second_nanos : ℕ
second_nanos = 1_000_000_000

abbrev past : Option Instant → Instant → Bool
past none now = true
past (some deadline) now = leb deadline now

module _ {W : Type 0} where
  abbrev pub new_runtime : String → W → InterfaceRuntime W
  new_runtime name health = record {
    name = name;
    health = health;
    latest_success = false;
    degraded = false;
    available = true;
    retry_at = none;
    backoff_step = 0;
  }

  abbrev pub can_resolve : InterfaceRuntime W → Instant → Bool
  can_resolve r now = past r.retry_at now

  abbrev pub mark_available : InterfaceRuntime W → InterfaceRuntime W
  mark_available r = record r { available = true; retry_at = none; backoff_step = 0 }

  abbrev pub failure_delay : InterfaceRuntime W → ℕ
  failure_delay r = min (2 ^ min r.backoff_step 6) 60 * second_nanos

  abbrev pub mark_failed : Instant → InterfaceRuntime W → InterfaceRuntime W
  mark_failed now r = record r {
    available = false;
    latest_success = false;
    retry_at = some (now + failure_delay r);
    backoff_step = min (min (r.backoff_step + 1) 255) 6;
  }

  unfoldable pub find : String → List (InterfaceRuntime W) → Option (InterfaceRuntime W)
  find name [] = none
  find name (r ∷ rs) = if str_eq r.name name then some r else find name rs

  unfoldable pub update :
      String
      → (InterfaceRuntime W → InterfaceRuntime W)
      → List (InterfaceRuntime W)
      → List (InterfaceRuntime W)
  update name f [] = []
  update name f (r ∷ rs) =
      let rest = update name f rs in if str_eq r.name name then f r ∷ rs else r ∷ rest

-- What the call reads from outside: for an interface, the clock when it is tested and when it is
-- marked, the calendar's time, and the error of the resolver, if any.
pub record Surroundings : Type 0 where
  pub tested_at : String → Instant
  pub failed_at : String → Instant
  pub utc_now : String → Instant
  pub resolve : String → Option String

-- What the call changes: the interfaces, `stats.interface_failures`, and the events so far.
pub record Selecting (W : Type 0) : Type 0 where
  pub interfaces : List (InterfaceRuntime W)
  pub failures : ℕ
  pub events : List MeasurementEvent

unfoldable pub interface_event :
    String
    → Instant
    → String
    → Outcome
    → Option ErrorKind
    → Option Instant
    → SchedulerAction × SchedulerReason × Message
    → MeasurementEvent
interface_event run_id now interface outcome error_kind retry_at (action, reason, message) =
    record (new_event run_id EventKind.scheduler outcome now) {
      interface = if str_eq interface "unassigned" then none else some interface;
      error_kind = error_kind;
      scheduler_not_before_utc = retry_at;
      scheduler_action = some action;
      scheduler_reason = some reason;
      message = some message;
    }

-- `eligible.remove`.
unfoldable pub remove : String → List String → List String
remove x [] = []
remove x (y ∷ ys) = let rest = remove x ys in if str_eq x y then rest else y ∷ rest

abbrev instant_to_utc : Surroundings → String → Instant → Instant
instant_to_utc env name deadline = env.utc_now name + (deadline - env.tested_at name)

abbrev deadline_of : Surroundings → String → Option Instant → Option Instant
deadline_of env name none = none
deadline_of env name (some deadline) = some (instant_to_utc env name deadline)

module _ {W : Type 0} (run_id : String) (env : Surroundings) where
  abbrev pub resolved : String → Selecting W → Selecting W
  resolved name s = record s { interfaces = update name mark_available s.interfaces }

  abbrev pub interface_failed :
      String
      → SchedulerAction × SchedulerReason × Message
      → InterfaceRuntime W
      → Selecting W
      → Selecting W
  interface_failed name decision r s = record {
    interfaces = update name (mark_failed (env.failed_at name)) s.interfaces;
    failures = s.failures + 1;
    events =
        s.events
        ++ interface_event run_id (env.utc_now name) name Outcome.deferred (some ErrorKind.io)
            (some (env.utc_now name + failure_delay r)) decision
          ∷ [];
  }

  abbrev suppress :
      String
      → Outcome
      → Option ErrorKind
      → Option Instant
      → SchedulerReason
      → Message
      → Selecting W
      → Option String × Selecting W
  suppress name outcome kind retry_at reason message s = (
    none,
    record s {
      events =
          s.events
          ++ interface_event run_id (env.utc_now name) name outcome kind retry_at
              (SchedulerAction.bandwidth_suppressed, reason, message)
            ∷ [];
    },
  )

  abbrev resolve_requested :
      String → Option String → InterfaceRuntime W → Selecting W → Option String × Selecting W
  resolve_requested name none r s = (some name, resolved name s)
  resolve_requested name (some error) r s = (
    none,
    interface_failed name
        (
          SchedulerAction.bandwidth_suppressed,
          SchedulerReason.trigger_interface_unavailable,
          Message.requested_unavailable error,
        )
        r s,
  )

  -- The opportunity names an interface.
  abbrev select_requested :
      String → Option (InterfaceRuntime W) → Selecting W → Option String × Selecting W
  select_requested name none s =
      suppress name Outcome.error (some ErrorKind.io) none SchedulerReason.trigger_interface_missing
        Message.interface_missing s
  select_requested name (some r) s =
      if can_resolve r (env.tested_at name)
      then resolve_requested name (env.resolve name) r s
      else suppress name Outcome.deferred none (deadline_of env name r.retry_at)
          SchedulerReason.trigger_interface_backoff Message.interface_backoff s

  unfoldable pub eligible_names : List (InterfaceRuntime W) → List String
  eligible_names [] = []
  eligible_names (r ∷ rs) =
      let rest = eligible_names rs in
      if r.available && not r.degraded && can_resolve r (env.tested_at r.name)
      then r.name ∷ rest
      else rest

  abbrev pub skip : String → String → InterfaceRuntime W → Selecting W → Selecting W
  skip name error r s =
      interface_failed name
        (
          SchedulerAction.bandwidth_interface_skipped,
          SchedulerReason.interface_unavailable,
          Message.unavailable error,
        )
        r s

  abbrev pub none_healthy : Selecting W → Option String × Selecting W
  none_healthy s =
      suppress "unassigned" Outcome.suppressed none none SchedulerReason.no_healthy_interface
        Message.no_healthy s

  -- The loop, with `none` where the fuel runs out or `expect` would panic.
  unfoldable pub select_any :
      ℕ → FairInterfaceSelector → List String → Selecting W → Option (Option String × Selecting W)
  select_any zero fairness names s = none
  select_any (suc fuel) fairness names s = elim (select fairness names) [
    | none ↦ some (
        suppress "unassigned" Outcome.suppressed none none SchedulerReason.no_healthy_interface
          Message.no_healthy s)
    | some name ↦ elim (find name s.interfaces) [
      | none ↦ none
      | some r ↦ elim (env.resolve name) [
        | none ↦ some (some name, resolved name s)
        | some error ↦ select_any fuel fairness (remove name names) (skip name error r s)
      ]
    ]
  ]

  abbrev started : List (InterfaceRuntime W) → ℕ → Selecting W
  started interfaces failures = record { interfaces = interfaces; failures = failures; events = [] }

  abbrev choose :
      Option String
      → List (InterfaceRuntime W)
      → FairInterfaceSelector
      → ℕ
      → Option (Option String × Selecting W)
  choose none interfaces fairness failures =
      let names = eligible_names interfaces in
      select_any (suc (length names)) fairness names (started interfaces failures)
  choose (some requested) interfaces fairness failures =
      some (select_requested requested (find requested interfaces) (started interfaces failures))

  unfoldable pub select_bandwidth_interface :
      BandwidthOpportunity
      → List (InterfaceRuntime W)
      → FairInterfaceSelector
      → ℕ
      → Option (Option String × Selecting W)
  select_bandwidth_interface opportunity = choose opportunity.interface
