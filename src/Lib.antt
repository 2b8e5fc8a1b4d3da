-- ===== src/Lib.antt =====
-- The scheduler of netband, the health window that triggers it, the files that keep it, and the
-- selection of interfaces and the journal around it: the part of the program that decides when a
-- bandwidth measurement may start, records each start before it happens, and carries its accounting
-- across restarts, failed writes and clocks that jump.
--
-- How the parts interact. The monitor (src/monitor.rs) and the command line (src/lib.rs) poll the
-- scheduler for an opportunity, run it (src/bandwidth.rs), which reserves a start through the gate
-- before any traffic, and hand the report back to finish_attempt. Ping rounds go into a health
-- window for each interface, whose decisions go to observe_interface_health. Every method works on
-- the active provider's entry of a store that is written to disk within the method.
--
-- Files and code:
--   Model            enums, MeasurementEvent and its constructor, of src/model.rs
--   Health           HealthWindow and its helpers, of src/health.rs; Health.Laws, Health.Panics:
--                      its invariant and its panics
--   Chrono, Dict     what is used of chrono and of BTreeMap; Chrono.Utc: a calendar for the examples
--   Scheduler        src/scheduler.rs, a module for each group of methods:
--     Types            the persisted state, the policy, the values passed
--     Time, Random     day_start to duration_millis; next_random, jitter_duration
--     Plan             plan_full_day, plan_interval; Plan.Strata, Plan.Spacing, Plan.Seed: its laws
--     Admission        runs_on_day, block_reason, event
--     Store            the object, the effects of a method, persist
--     Clock            reconcile_day, replan_remaining, advance_clock
--     Trigger          observe_interface_health and the interface triggers
--     Reserve          reserve_run, preflight_manual; Reserve.Booking, Reserve.Outcomes: what a
--                      reservation leaves
--     Poll             poll_interfaces in its stages; Poll.Select: what it selects from the state
--     Attempt          finish_attempt; Attempt.RateLimit: rate_limit_from_report
--     Open             reconcile, open_seeded
--     Gate             snapshot, flush, open, the reservation gate, apply_admission of src/bandwidth.rs
--     Change           the transitions that methods make on the state, one constructor for each;
--                      Change.Rules: methods as paths of them; Change.Runs, Change.Preserve: what each
--                      keeps; Change.Validity: validate_store of src/scheduler/persistence.rs
--     Persistence      src/scheduler/persistence.rs: Format: the documents; Account: what is accounted
--                      for and its replay; Log: read_log; Commit: persist over calls that may fail;
--                      Recover, Restart: open; Storage: the scheduler's storage on these files;
--                      Restart.Recovery, Storage.Durable: what survives a restart
--     Trace            histories of calls and the starts they admit; Trace.Quota, Trace.Valid
--   Interfaces       src/interfaces.rs: resolve_configured_with and FairInterfaceSelector;
--                      Interfaces.Turns, Interfaces.Balance: what it selects
--   Monitor          InterfaceRuntime and select_bandwidth_interface of src/monitor.rs
--   Journal          OutputCoordinator of src/journal.rs; Journal.Close: its finish_session;
--                      Journal.Calls, Journal.Tree, Journal.Numbers, Journal.Ending: its laws
--   Base             shared names, lists, sorting, counting and bits over native numbers
--   Examples         concrete inputs
--
-- State and operations. A method that may fail is a function of the object to the object after it
-- with a result, so that a failed write leaves the change in memory, as in the code. The active
-- entry of the store is the field state, and store puts it back among the others for a write. A
-- message is kept as the values that it prints. Machine integers keep their width where they can
-- leave it: the random words are taken modulo 2^64, counts of runs saturate at 2^32 - 1, steps and
-- attempts at 255, and the products of the planning loop are shown to fit 64 bits.
--
-- Parameters. Chrono is the calendar arithmetic of the chrono crate, with its documented behaviour as
-- the laws IsChrono, which Chrono.Utc meets; instants are natural numbers, so dates before the epoch
-- of the calendar are left out. Float64 is the primitive floating-point
-- arithmetic of the health window; the laws IsFloat64 of it, which IEEE 754 has, are met by the
-- hundredths of Examples.Windows.
-- Storage is what the scheduler uses of src/scheduler/persistence.rs, over any type of files, with no
-- law: a write may fail at any time. Persistence.Storage fills it. Format is the JSON and the digest
-- over any type of bytes; IsFormat, that a document is parsed back and has no newline, is met by
-- the documents of Examples.Disks. The operating system may fail every call of a persist or an open
-- in the ways that Faults and Opening list: a failed append leaves any first part of its line, and a
-- failed replacement the old file or the new one. The seed of a new provider is an argument.
--
-- Bounds and fuel. The loop of select_bandwidth_interface runs on fuel, one more than the number of
-- eligible interfaces: every round that goes on removes one of them. That of finish_session runs on
-- one more than the number of active runs: every round that goes on ends a run. Every other loop is
-- structural recursion on a list or on the number of rounds left.
--
-- Not modelled: the lock and the temporary files of src/scheduler/persistence.rs, the sockets, HTTP
-- and WebSocket traffic of src/ping.rs, src/provider.rs and src/bandwidth.rs, the event loop of
-- src/monitor.rs, the configuration, the CSV files of src/journal.rs and the command line.
pub mod Base
pub mod Chrono
pub mod Model
pub mod Dict
pub mod Health
pub mod Interfaces
pub mod Scheduler
pub mod Monitor
pub mod Journal
pub mod Examples
