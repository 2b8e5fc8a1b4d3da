-- ===== src/Journal/Types.antt =====
-- src/journal.rs and src/model.rs: what the coordinator keeps and reads.
use netband.Base.{ℕ, Bool, Option, none, List, String}
use netband.Chrono.{Instant}
use netband.Dict.{Dict}
use netband.Model.{
  MeasurementEvent, EventKind, Outcome, ProviderKind, TriggerReason, F64, new_event,
}

pub data RunKind : Type 0 where
  session ping_round bandwidth : RunKind

pub data LoadPhase : Type 0 where
  setup download upload : LoadPhase

-- A measurement event with the fields that the coordinator writes.
pub record OutputEvent : Type 0 where
  pub body : MeasurementEvent
  pub event_sequence : Option ℕ
  pub parent_run_id : Option String
  pub root_run_id : String
  pub run_kind : RunKind
  pub started_at_utc : Option Instant
  pub elapsed_ms : Option F64
  pub command : Option String
  pub netband_version : Option String
  pub process_id : Option ℕ
  pub load_run_id : Option String
  pub load_phase : Option LoadPhase

abbrev kind_of : EventKind → RunKind
kind_of EventKind.ping_probe = RunKind.ping_round
kind_of EventKind.bandwidth = RunKind.bandwidth
kind_of EventKind.request_failure = RunKind.bandwidth
kind_of _ = RunKind.session

-- `MeasurementEvent::new`, in these fields.
unfoldable pub new_output : String → EventKind → Outcome → Instant → OutputEvent
new_output run_id kind outcome now = record {
  body = new_event run_id kind outcome now;
  event_sequence = none;
  parent_run_id = none;
  root_run_id = run_id;
  run_kind = kind_of kind;
  started_at_utc = none;
  elapsed_ms = none;
  command = none;
  netband_version = none;
  process_id = none;
  load_run_id = none;
  load_phase = none;
}

pub record RunContext : Type 0 where
  pub interface : Option String
  pub provider_id : Option String
  pub provider_kind : Option ProviderKind
  pub trigger_reason : Option TriggerReason
  pub load_run_id : Option String
  pub load_phase : Option LoadPhase

abbrev pub default_context : RunContext
default_context = record {
  interface = none;
  provider_id = none;
  provider_kind = none;
  trigger_reason = none;
  load_run_id = none;
  load_phase = none;
}

pub record ActiveRun : Type 0 where
  pub root : String
  pub parent : Option String
  pub kind : RunKind
  pub started_at : Instant
  pub started : Instant

pub record OutputCoordinator (J : Type 0) : Type 0 where
  pub journal : J
  pub console : List OutputEvent
  pub sequence : ℕ
  pub failed : Bool
  pub runs : Dict ActiveRun

-- The text of a `JournalError`; `none` is success.
abbrev pub Failure : Type 0
Failure = Option String

-- What a call reads: the two clocks, the conversion of an elapsed time, the process, the version.
pub record Process : Type 0 where
  pub utc_now : Instant
  pub now : Instant
  pub millis : ℕ → F64
  pub process_id : ℕ
  pub version : String
