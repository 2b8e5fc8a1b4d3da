-- ===== src/Journal.antt =====
-- src/journal.rs: the `OutputCoordinator`, which numbers the events and keeps the tree of active
-- runs. The journal is a state of any type with an append that may fail; the console is the list of
-- the events offered to it; clocks, the process and the version are given.
pub mod Types
pub mod Numbers
pub mod Tree
pub mod Calls
pub mod Close
pub mod Ending
use netband.Base.{
  ℕ, zero, suc, ◌+◌, ◌-◌, ◌^◌, Bool, true, false, not, ◌&&◌, ◌||◌, Option, none, some, List, [],
  ◌∷◌, ◌++◌, String, str_eq, leb, length, if◌then◌else◌,
}
pub use Types.{
  RunKind, LoadPhase, OutputEvent, RunContext, ActiveRun, OutputCoordinator, Process, new_output,
  default_context, Failure,
}
use netband.Chrono.{Instant}
use netband.Dict.{Dict, get, insert}
use netband.Model.{
  MeasurementEvent, EventKind, Outcome, ErrorKind, ProviderKind, TriggerReason, Message, F64,
  new_event,
}

abbrev pub u64_limit : ℕ
u64_limit = 2 ^ 64 - 1

abbrev pub in_run : Option ActiveRun → OutputEvent → OutputEvent
in_run none e = e
in_run (some run) e = record e {
  parent_run_id = run.parent;
  root_run_id = run.root;
  run_kind = run.kind;
}

abbrev prepend : OutputEvent → Option (List OutputEvent) → Option (List OutputEvent)
prepend e none = none
prepend e (some es) = some (e ∷ es)

-- The loop over the events: the sequence after it, and `none` where it is exhausted.
unfoldable pub number : Dict ActiveRun → ℕ → List OutputEvent → ℕ × Option (List OutputEvent)
number runs sequence [] = (sequence, some [])
number runs sequence (e ∷ es) =
    let rest = number runs (sequence + 1) es in
    let next =
      in_run (get e.body.run_id runs) (record e { event_sequence = some (sequence + 1) }) in
    if leb u64_limit sequence then (sequence, none) else (rest.0, prepend next rest.1)

-- `BTreeMap::remove`.
unfoldable pub remove_run : String → Dict ActiveRun → Dict ActiveRun
remove_run id [] = []
remove_run id ((j, run) ∷ runs) =
    let rest = remove_run id runs in if str_eq j id then rest else (j, run) ∷ rest

abbrev is_parent : String → Option String → Bool
is_parent id none = false
is_parent id (some p) = str_eq p id

unfoldable pub has_children : String → Dict ActiveRun → Bool
has_children id [] = false
has_children id ((j, run) ∷ runs) = is_parent id run.parent || has_children id runs

abbrev pub is_active : Option ActiveRun → Bool
is_active none = false
is_active (some run) = true

abbrev pub is_idle : Dict ActiveRun → Bool
is_idle [] = true
is_idle (r ∷ rs) = false

abbrev root_of : String → Option ActiveRun → String
root_of id none = id
root_of id (some run) = run.root

-- `self.runs[&parent].root`, where the parent was found active.
abbrev pub root_under : String → Option String → Dict ActiveRun → String
root_under id none runs = id
root_under id (some parent) runs = root_of id (get parent runs)

abbrev with_command : Process → Option String → OutputEvent → OutputEvent
with_command p none e = e
with_command p (some command) e = record e {
  command = some command;
  netband_version = some p.version;
  process_id = some p.process_id;
}

abbrev started_event :
    Process
    → String
    → Option String
    → RunKind
    → Option String
    → RunContext
    → Dict ActiveRun
    → OutputEvent
started_event p id parent kind command context runs =
    let e = new_output id EventKind.run_started Outcome.started p.utc_now in
    with_command p command (record e {
      body = record e.body {
        finished_at_utc = none;
        interface = context.interface;
        provider_id = context.provider_id;
        provider_kind = context.provider_kind;
        trigger_reason = context.trigger_reason;
      };
      parent_run_id = parent;
      root_run_id = root_under id parent runs;
      run_kind = kind;
      started_at_utc = some p.utc_now;
      load_run_id = context.load_run_id;
      load_phase = context.load_phase;
    })

abbrev pub new_run : Process → String → Option String → RunKind → Dict ActiveRun → ActiveRun
new_run p id parent kind runs = record {
  root = root_under id parent runs;
  parent = parent;
  kind = kind;
  started_at = p.utc_now;
  started = p.now;
}

abbrev with_error : Option String → OutputEvent → OutputEvent
with_error none e = e
with_error (some error) e = record e {
  body = record e.body {
    error_kind = some ErrorKind.internal;
    message = some (Message.text error);
  };
}

abbrev pub finished_event : Process → String → Outcome → Option String → ActiveRun → OutputEvent
finished_event p id outcome error run =
    let e = new_output id EventKind.run_finished outcome p.utc_now in
    with_error error (record e {
      started_at_utc = some run.started_at;
      elapsed_ms = some (p.millis (p.now - run.started));
    })

module _ {J : Type 0} (append_batch : J → List OutputEvent → J × Failure) where
  abbrev pub new_coordinator : J → OutputCoordinator J
  new_coordinator journal = record {
    journal = journal;
    console = [];
    sequence = 0;
    failed = false;
    runs = [];
  }

  abbrev offer_all :
      List OutputEvent → OutputCoordinator J → J × Failure → OutputCoordinator J × Failure
  offer_all events o (journal, some error) =
      (record o { journal = journal; failed = true }, some error)
  offer_all events o (journal, none) =
      (record o { journal = journal; console = o.console ++ events }, none)

  abbrev publish_numbered :
      OutputCoordinator J → ℕ × Option (List OutputEvent) → OutputCoordinator J × Failure
  publish_numbered o (sequence, none) =
      (record o { sequence = sequence }, some "event sequence exhausted")
  publish_numbered o (sequence, some events) =
      offer_all events (record o { sequence = sequence }) (append_batch o.journal events)

  unfoldable pub publish_batch :
      List OutputEvent → OutputCoordinator J → OutputCoordinator J × Failure
  publish_batch events o =
      if o.failed
      then (o, some "journal publication previously failed")
      else publish_numbered o (number o.runs o.sequence events)

  abbrev pub then_runs :
      (Dict ActiveRun → Dict ActiveRun)
      → OutputCoordinator J × Failure
      → OutputCoordinator J × Failure
  then_runs f (o, some error) = (o, some error)
  then_runs f (o, none) = (record o { runs = f o.runs }, none)

  pub begin_run :
      Process
      → String
      → Option String
      → RunKind
      → Option String
      → RunContext
      → OutputCoordinator J
      → OutputCoordinator J × Failure
  unfolding publish_batch
  begin_run p id parent kind command context o =
      if is_active (get id o.runs)
      then (o, some "run is already active")
      else then_runs (insert id (new_run p id parent kind o.runs))
          (publish_batch (started_event p id parent kind command context o.runs ∷ []) o)

  unfoldable pub start_session :
      Process → String → String → OutputCoordinator J → OutputCoordinator J × Failure
  unfolding begin_run
  start_session p id command o =
      if is_idle o.runs
      then begin_run p id none RunKind.session (some command) default_context
          (record o { sequence = 0 })
      else (o, some "session is already active")

  unfoldable pub start_run_with_context :
      Process
      → String
      → String
      → RunKind
      → RunContext
      → OutputCoordinator J
      → OutputCoordinator J × Failure
  unfolding begin_run
  start_run_with_context p id parent kind context o =
      if is_active (get parent o.runs)
      then begin_run p id (some parent) kind none context o
      else (o, some "parent run is not active")

  pub finish_known :
      Process
      → String
      → Outcome
      → Option String
      → Option ActiveRun
      → OutputCoordinator J
      → OutputCoordinator J × Failure
  unfolding publish_batch
  finish_known p id outcome error none o = (o, some "run is not active")
  finish_known p id outcome error (some run) o =
      then_runs (remove_run id) (publish_batch (finished_event p id outcome error run ∷ []) o)

  unfoldable pub finish_run :
      Process
      → String
      → Outcome
      → Option String
      → OutputCoordinator J
      → OutputCoordinator J × Failure
  unfolding finish_known
  finish_run p id outcome error o =
      if has_children id o.runs
      then (o, some "run has active children")
      else finish_known p id outcome error (get id o.runs) o
