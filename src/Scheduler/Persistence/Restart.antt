-- ===== src/Scheduler/Persistence/Restart.antt =====
-- src/scheduler/persistence.rs: the second half of `Persistence::open`, from the log on, and
-- `needs_snapshot`.
pub mod Safety
pub mod Recovery
use netband.Base.{
  ℕ, zero, suc, Bool, true, false, not, ◌&&◌, ◌||◌, Option, none, some, List, [], ◌∷◌, ◌++◌, String,
  str_eq, get_elem?, if◌then◌else◌, ◌⊎◌, inl, inr,
}
use netband.Scheduler.Types.{SchedulerError}
use netband.Scheduler.Store.{Result, ok, err}
use netband.Scheduler.Persistence.Format.{
  Checkpoint, Header, SchedulerStore, Format, corrupt, ◌>>=◌, parsed, checkpoint_eq,
  state_schema_version,
}
use netband.Scheduler.Persistence.Account.{accounting, accounting_eq, replay, name_eq}
use netband.Scheduler.Persistence.Log.{
  Log, last_checkpoint, last_state, read_log, validate_checkpoint,
}
use netband.Scheduler.Persistence.Commit.{
  Paths, Files, Persistence, Write, write_file, stat, digest_of,
}
use netband.Scheduler.Persistence.Recover.{Opening, Found, is_empty, required, inspect_files}

pub record Opened : Type 0 where
  pub memory : Persistence
  pub store : SchedulerStore
  pub recovered : Bool

-- The state that `open` accepts, and whether the log was replayed on it.
pub record Accepted : Type 0 where
  pub store : SchedulerStore
  pub recovered : Bool

-- Steps that write, one after the other.
abbrev pub in_order {ℓ} :
    {S : Type ℓ} {A B : Type 0} → S × Result A → (S → A → S × Result B) → S × Result B
in_order (s, ok a) f = f s a
in_order (s, err e) f = (s, err e)

-- `log.states.get(sequence - 1)`.
abbrev pub state_at : Log → ℕ → Option SchedulerStore
state_at log zero = none
state_at log (suc i) = get_elem? log.states i

abbrev pub is_checkpoint : Option Checkpoint → Checkpoint → Bool
is_checkpoint none last = false
is_checkpoint (some k) last = checkpoint_eq k last

abbrev pub same_accounting : Option SchedulerStore → SchedulerStore → Bool
same_accounting none store = false
same_accounting (some baseline) store =
    accounting_eq (accounting baseline.providers) (accounting store.providers)

abbrev pub same_content : {B : Type 0} → Format B → Option (List B) → List B → Bool
same_content w none bytes = false
same_content w (some old) bytes = w.same_bytes old bytes

module _ {B : Type 0} (w : Format B) (at : Paths) where
  created : Write → List B → Files B → Files B × Result Log
  created fault bytes files =
      let r = write_file fault bytes files.ledger in
      in_order (record files { ledger = r.0 }, r.1) λ f done. (f, read_log w at.ledger bytes)

  abbrev fresh_header : String → List B
  fresh_header identity =
      let header : Header = record { version = state_schema_version; installation = identity } in
      w.header_json header ++ w.newline ∷ []

  create_log : Write → SchedulerError ⊎ String → Files B → Files B × Result Log
  unfolding created
  create_log fault (inl e) files = (files, err e)
  create_log fault (inr identity) files = created fault (fresh_header identity) files

  pub log_of : Opening → Bool → Option (List B) → Files B → Files B × Result Log
  unfolding create_log
  log_of flt fresh (some bytes) files = (files, read_log w at.ledger bytes)
  log_of flt true none files = create_log flt.ledger flt.identity files
  log_of flt false none files = (files, corrupt at.ledger "required accounting log is missing")

  check_same : Option SchedulerStore → SchedulerStore → Result (Unit {0})
  check_same baseline store =
      if same_accounting baseline store
      then ok tt
      else corrupt at.primary "snapshot accounting differs from its log record"

  check_baseline : SchedulerStore → Log → Result (Unit {0})
  unfolding check_same
  check_baseline store log = do
    k ← required at.primary "snapshot has no accounting checkpoint" store.checkpoint
    valid ← validate_checkpoint w at.primary k log
    check_same (state_at log k.sequence) store

  pub check_snapshot : Found B → Log → Result (Unit {0})
  unfolding check_baseline
  check_snapshot found log =
      if found.fresh
      then (if is_empty log.states
          then ok tt
          else corrupt at.ledger "orphan accounting records are not a new installation")
      else if found.resuming
      then ok tt
      else check_baseline found.store log

  check_marker : Found B → Log → Result (Unit {0})
  check_marker found log = if found.fresh then ok tt else do
    content ← required at.marker "accounting checkpoint is missing or empty" found.marker
    k ← parsed at.marker (w.parse_checkpoint content)
    validate_checkpoint w at.marker k log

  -- `recovered`.
  is_behind : Found B → Log → Bool
  is_behind found log =
      not found.fresh
      && not (is_empty log.states)
      && not (is_checkpoint found.store.checkpoint (last_checkpoint log))

  pub accepted_state : Found B → Log → Accepted
  unfolding is_behind
  accepted_state found log =
      let store = found.store in
      if is_behind found log
      then record {
        store = record store {
          checkpoint = some (last_checkpoint log);
          providers = replay (last_state log).providers store.providers;
        };
        recovered = true;
      }
      else record {
        store = record store { checkpoint = some (last_checkpoint log) };
        recovered = false;
      }

  pub accept : Found B → Log → Result Accepted
  unfolding check_snapshot check_marker accepted_state
  accept found log = do
    valid ← check_snapshot found log
    marked ← check_marker found log
    ok (accepted_state found log)

  opened_state : Found B → Log → Accepted → ℕ → Opened
  opened_state found log a len = record {
    memory = record {
      checkpoint = last_checkpoint log;
      committed = last_state log;
      snapshot_digest = digest_of w at found.primary;
      ledger_len = len;
      poisoned = false;
    };
    store = a.store;
    recovered = a.recovered;
  }

  move_marker : Opening → Option (List B) → Checkpoint → Files B → Files B × Result (Unit {0})
  move_marker flt marker last files =
      let bytes = w.checkpoint_json last in
      let r = write_file flt.marker bytes files.marker in
      if same_content w marker bytes then (files, ok tt) else (record files { marker = r.0 }, r.1)

  pub install : Opening → Found B → Log → Files B → Accepted → Files B × Result Opened
  unfolding move_marker opened_state
  install flt found log files a =
      in_order (move_marker flt found.marker (last_checkpoint log) files) λ f done.
        (f, do len ← stat w at flt.stat_ledger f.ledger; ok (opened_state found log a len))

  unfoldable pub open_persistence : Opening → Files B → Files B × Result Opened
  unfolding log_of accept install
  open_persistence flt files =
      in_order (files, inspect_files w at flt files)
        λ f found.
          in_order (log_of flt found.fresh found.ledger f)
            λ g log. in_order (g, accept found log) (install flt found log)

  unfoldable pub needs_snapshot : Persistence → SchedulerStore → Bool
  needs_snapshot memory store =
      not (name_eq memory.snapshot_digest (some (w.digest (w.store_json store))))
