-- ===== src/Scheduler/Persistence/Recover.antt =====
-- src/scheduler/persistence.rs: `Persistence::open` and `needs_snapshot`. The lock, the errors of
-- the calls and the random identity are given; paths are compared as text.
pub mod Reading
use netband.Base.{
  ℕ, zero, suc, Bool, true, false, not, ◌&&◌, ◌||◌, Option, none, some, List, [], ◌∷◌, ◌++◌, String,
  str_eq, ◌==◌, leb, length, get_elem?, if◌then◌else◌, ◌⊎◌, inl, inr,
}
use netband.Scheduler.Types.{ProviderState, SchedulerError}
use netband.Scheduler.Store.{Result, ok, err, Providers}
use netband.Scheduler.Persistence.Format.{
  Checkpoint, Header, SchedulerStore, Format, corrupt, ◌>>=◌, parsed, parse_store, checkpoint_eq,
  default_store, state_schema_version,
}
use netband.Scheduler.Persistence.Account.{accounting, accounting_eq, replay, name_eq}
use netband.Scheduler.Persistence.Log.{
  Log, last_checkpoint, last_state, read_log, validate_checkpoint,
}
use netband.Scheduler.Persistence.Commit.{
  Paths, Files, Persistence, Write, written, read_optional, write_file, stat, digest_of,
}

-- What happens to the calls of one `open`; `identity` is the hexadecimal text of the random bytes.
pub record Opening : Type 0 where
  pub lock : Option SchedulerError
  pub read_primary : Option SchedulerError
  pub read_marker : Option SchedulerError
  pub read_ledger : Option SchedulerError
  pub find_backup : Option SchedulerError
  pub identity : SchedulerError ⊎ String
  pub ledger : Write
  pub marker : Write
  pub stat_ledger : Option SchedulerError

-- The files as read, and the state to go on with.
pub record Found (B : Type 0) : Type 0 where
  pub primary : Option (List B)
  pub marker : Option (List B)
  pub ledger : Option (List B)
  pub fresh : Bool
  pub resuming : Bool
  pub store : SchedulerStore

abbrev pub is_missing {ℓ} : {A : Type ℓ} → Option A → Bool
is_missing none = true
is_missing (some a) = false

abbrev pub is_empty {ℓ} : {A : Type ℓ} → List A → Bool
is_empty [] = true
is_empty (x ∷ xs) = false

abbrev pub is_blank : {B : Type 0} → Option (List B) → Bool
is_blank none = true
is_blank (some bytes) = is_empty bytes

abbrev pub required : {A : Type 0} → String → String → Option A → Result A
required path message none = corrupt path message
required path message (some a) = ok a

abbrev pub exists_file : {B : Type 0} → Option SchedulerError → Option (List B) → Result Bool
exists_file none content = ok (not (is_missing content))
exists_file (some e) content = err e

abbrev pub lock_result : Option SchedulerError → Result (Unit {0})
lock_result none = ok tt
lock_result (some e) = err e

abbrev pub unused : Providers → Bool
unused [] = true
unused ((id, state) ∷ rest) =
    is_empty state.runs
    && is_missing state.last_started_at_utc
    && is_missing state.cooldown_until_utc
    && state.backoff_step == 0
    && unused rest

abbrev pub all_unused : List SchedulerStore → Bool
all_unused [] = true
all_unused (state ∷ states) = unused state.providers && all_unused states

abbrev pub lost : String
lost = "initialized state is missing; preserve the recovery set and restore a verified snapshot"

module _ {B : Type 0} (w : Format B) (at : Paths) where
  conflicts : Bool
  conflicts =
      str_eq at.lock at.primary || str_eq at.backup at.primary || str_eq at.marker at.primary

  pub is_fresh : Opening → Option (List B) → Option (List B) → Option (List B) → Result Bool
  is_fresh flt primary marker backup =
      if is_missing primary && is_missing marker
      then (do found ← exists_file flt.find_backup backup; ok (not found))
      else ok false

  pub accept_idle : Opening → Option (List B) → Log → Result SchedulerStore
  accept_idle flt backup log =
      if leb (length log.states) 1 && all_unused log.states
      then (do
        found ← exists_file flt.find_backup backup
        if found then corrupt at.primary lost else ok (last_state log))
      else corrupt at.primary lost

  -- An initialization that stopped before its snapshot.
  pub resume : Opening → Files B → Option (List B) → Option (List B) → Result SchedulerStore
  unfolding accept_idle
  resume flt files marker ledger = do
    bytes ← required at.primary "initialized state and accounting log are missing" ledger
    log ← read_log w at.ledger bytes
    content ← required at.primary "initialized state is missing" marker
    k ← parsed at.marker (w.parse_checkpoint content)
    valid ← validate_checkpoint w at.marker k log
    accept_idle flt files.backup log

  pub initializing :
      Opening
      → Files B
      → Bool
      → Option (List B)
      → Option (List B)
      → Option (List B)
      → Result (Option SchedulerStore)
  unfolding resume
  initializing flt files fresh primary marker ledger =
      if is_missing primary && not fresh
      then (do store ← resume flt files marker ledger; ok (some store))
      else ok none

  pub choose_store : Option (List B) → Bool → Option SchedulerStore → Result SchedulerStore
  choose_store (some bytes) fresh resumed = parse_store w at.primary bytes
  choose_store none true resumed = ok default_store
  choose_store none false (some store) = ok store
  choose_store none false none = corrupt at.primary lost

  pub check_marked : Bool → Option (List B) → Result (Unit {0})
  check_marked fresh marker =
      if not fresh && is_blank marker
      then corrupt at.marker "accounting checkpoint is missing or empty"
      else ok tt

  pub found_state :
      Option (List B)
      → Option (List B)
      → Option (List B)
      → Bool
      → Option SchedulerStore
      → Result (Found B)
  unfolding choose_store check_marked
  found_state primary marker ledger fresh resumed = do
    store ← choose_store primary fresh resumed
    marked ← check_marked fresh marker
    ok (record {
      primary = primary;
      marker = marker;
      ledger = ledger;
      fresh = fresh;
      resuming = not (is_missing resumed);
      store = store;
    })

  pub gather :
      Opening → Files B → Option (List B) → Option (List B) → Option (List B) → Result (Found B)
  unfolding is_fresh initializing found_state
  gather flt files primary marker ledger = do
    fresh ← is_fresh flt primary marker files.backup
    resumed ← initializing flt files fresh primary marker ledger
    found_state primary marker ledger fresh resumed

  pub read_all : Opening → Files B → Result (Found B)
  unfolding gather
  read_all flt files = do
    primary ← read_optional flt.read_primary files.primary
    marker ← read_optional flt.read_marker files.marker
    ledger ← read_optional flt.read_ledger files.ledger
    gather flt files primary marker ledger

  unfoldable pub inspect_files : Opening → Files B → Result (Found B)
  unfolding conflicts read_all
  inspect_files flt files =
      if conflicts
      then corrupt at.primary
          "state path conflicts with a recovery file; use a name such as scheduler.json"
      else do held ← lock_result flt.lock; read_all flt files
