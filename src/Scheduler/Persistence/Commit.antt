-- ===== src/Scheduler/Persistence/Commit.antt =====
-- src/scheduler/persistence.rs: `persist`, which commits the accounting to the log, moves the
-- checkpoint, and replaces the snapshot. The operating system may fail each call in every way that
-- the steps of `atomic_write` and `write_synced` allow; a crash is a failure that nothing follows.
pub mod Laws
pub mod Extension
pub mod Outcome
pub mod Poison
use netband.Base.{
  ℕ, ◌+◌, ◌-◌, ◌^◌, Bool, true, false, not, ◌||◌, Option, none, some, List, [], ◌∷◌, ◌++◌, String,
  leb, ◌==◌, if◌then◌else◌, length,
}
use netband.Scheduler.Types.{SchedulerError, IoErrorKind}
use netband.Scheduler.Store.{Result, ok, err}
use netband.Scheduler.Persistence.Format.{
  Checkpoint, SchedulerStore, Record, Format, corrupt, ◌>>=◌, parsed, validate_store, checkpoint_eq,
  new_record,
}
use netband.Scheduler.Persistence.Account.{accounting, accounting_eq, name_eq}
use netband.Scheduler.Persistence.Log.Lines.{take}

-- The path of the state and its `with_extension`s.
pub record Paths : Type 0 where
  pub primary : String
  pub marker : String
  pub ledger : String
  pub backup : String
  pub lock : String

-- The files beside the lock; `none` is a file that is not there.
pub record Files (B : Type 0) : Type 0 where
  pub primary : Option (List B)
  pub marker : Option (List B)
  pub ledger : Option (List B)
  pub backup : Option (List B)

pub record Persistence : Type 0 where
  pub checkpoint : Checkpoint
  pub committed : SchedulerStore
  pub snapshot_digest : Option String
  pub ledger_len : ℕ
  pub poisoned : Bool

-- `atomic_write`: an error leaves the old file, or comes after the rename.
pub data Write : Type 0 where
  written : Write
  unchanged replaced : SchedulerError → Write

-- `write_synced` on the log: an error comes after the first bytes of the line, none or all included.
pub data Append : Type 0 where
  appended : Append
  torn : ℕ → SchedulerError → Append

-- What happens to the calls of one `persist`.
pub record Faults : Type 0 where
  pub read_primary : Option SchedulerError
  pub read_marker : Option SchedulerError
  pub stat_ledger : Option SchedulerError
  pub ledger : Append
  pub marker : Write
  pub backup : Write
  pub snapshot : Write

abbrev pub no_faults : Faults
no_faults = record {
  read_primary = none;
  read_marker = none;
  stat_ledger = none;
  ledger = appended;
  marker = written;
  backup = written;
  snapshot = written;
}

-- The files, the `Persistence` object, the store in memory, and the faults that are to come.
pub record Disk (B : Type 0) : Type 0 where
  pub files : Files B
  pub memory : Persistence
  pub store : SchedulerStore
  pub faults : List Faults

abbrev pub u64_last : ℕ
u64_last = 2 ^ 64 - 1

-- Goes on with the disk after a step that succeeded.
abbrev pub after :
    {B : Type 0}
    → Disk B × Result (Unit {0})
    → (Disk B → Disk B × Result (Unit {0}))
    → Disk B × Result (Unit {0})
after (d, ok _) f = f d
after (d, err e) f = (d, err e)

abbrev pub read_optional :
    {B : Type 0} → Option SchedulerError → Option (List B) → Result (Option (List B))
read_optional none content = ok content
read_optional (some e) content = err e

abbrev pub present : {B : Type 0} → String → Option (List B) → Result (List B)
present path none = corrupt path "required recovery file is missing"
present path (some bytes) = ok bytes

abbrev pub write_file :
    {B : Type 0} → Write → List B → Option (List B) → Option (List B) × Result (Unit {0})
write_file written bytes old = (some bytes, ok tt)
write_file (unchanged e) bytes old = (old, err e)
write_file (replaced e) bytes old = (some bytes, err e)

abbrev pub append_to :
    {B : Type 0} → Append → String → List B → Option (List B) → Option (List B) × Result (Unit {0})
append_to fault path line none = (none, err (SchedulerError.io path IoErrorKind.other))
append_to appended path line (some bytes) = (some (bytes ++ line), ok tt)
append_to (torn n e) path line (some bytes) = (some (bytes ++ take n line), err e)

abbrev file_len : {B : Type 0} → String → Option (List B) → Result ℕ
file_len path none = err (SchedulerError.io path IoErrorKind.other)
file_len path (some bytes) = ok (length bytes)

module _ {B : Type 0} (w : Format B) (at : Paths) where
  pub digest_of : Option (List B) → Option String
  digest_of none = none
  digest_of (some bytes) = some (w.digest bytes)

  check_len : Persistence → Option (List B) → ℕ → Result (Option (List B))
  check_len memory previous len =
      if len == memory.ledger_len
      then ok previous
      else corrupt at.primary "recovery files changed while the scheduler was running"

  pub stat : Option SchedulerError → Option (List B) → Result ℕ
  stat none content = file_len at.ledger content
  stat (some e) content = err e

  check_unchanged : Faults → Disk B → Option (List B) → Checkpoint → Result (Option (List B))
  unfolding digest_of check_len stat
  check_unchanged flt d previous k =
      if not (name_eq (digest_of previous) d.memory.snapshot_digest)
        || not (checkpoint_eq k d.memory.checkpoint)
      then corrupt at.primary "recovery files changed while the scheduler was running"
      else do len ← stat flt.stat_ledger d.files.ledger; check_len d.memory previous len

  -- All that comes before the first write; the result is the snapshot to back up.
  pub inspect : Faults → Disk B → Result (Option (List B))
  unfolding check_unchanged
  inspect flt d = do
    valid ← validate_store at.primary d.store
    previous ← read_optional flt.read_primary d.files.primary
    content ← read_optional flt.read_marker d.files.marker
    bytes ← present at.marker content
    k ← parsed at.marker (w.parse_checkpoint bytes)
    check_unchanged flt d previous k

  pub append_line : Append → List B → Disk B → Disk B × Result (Unit {0})
  append_line fault line d =
      let r = append_to fault at.ledger line d.files.ledger in
      (record d { files = record d.files { ledger = r.0 } }, r.1)

  pub save_marker : Write → Checkpoint → Disk B → Disk B × Result (Unit {0})
  save_marker fault k d =
      let r = write_file fault (w.checkpoint_json k) d.files.marker in
      (record d { files = record d.files { marker = r.0 } }, r.1)

  save_backup : Write → Option (List B) → Disk B → Disk B × Result (Unit {0})
  save_backup fault none d = (d, ok tt)
  save_backup fault (some previous) d =
      let r = write_file fault previous d.files.backup in
      (record d { files = record d.files { backup = r.0 } }, r.1)

  snapshot_saved : List B → Disk B → Disk B × Result (Unit {0})
  snapshot_saved bytes d = (
    record d {
      memory = record d.memory { snapshot_digest = some (w.digest bytes); poisoned = false };
    },
    ok tt,
  )

  save_snapshot : Write → Disk B → Disk B × Result (Unit {0})
  unfolding snapshot_saved
  save_snapshot fault d =
      let bytes = w.store_json d.store in
      let r = write_file fault bytes d.files.primary in
      after (record d { files = record d.files { primary = r.0 } }, r.1) (snapshot_saved bytes)

  -- `store.checkpoint = Some(self.checkpoint.clone())`.
  abbrev anchor : Disk B → Disk B
  anchor d = record d { store = record d.store { checkpoint = some d.memory.checkpoint } }

  -- The record of the store in memory.
  abbrev pub next_record : Disk B → Record
  next_record d =
      new_record w (d.memory.checkpoint.sequence + 1) d.memory.checkpoint.digest
        (record d.store { checkpoint = none })

  abbrev pub next_checkpoint : Disk B → Checkpoint
  next_checkpoint d = record d.memory.checkpoint {
    sequence = d.memory.checkpoint.sequence + 1;
    digest = (next_record d).digest;
  }

  pub committed_to : Checkpoint → SchedulerStore → ℕ → Disk B → Disk B × Result (Unit {0})
  committed_to k state len d = (
    record d {
      memory = record d.memory {
        checkpoint = k;
        ledger_len = d.memory.ledger_len + len;
        committed = state;
      };
    },
    ok tt,
  )

  pub commit_record : Faults → Disk B → Disk B × Result (Unit {0})
  unfolding append_line save_marker committed_to new_record
  commit_record flt d =
      let r = next_record d in
      let line = w.record_json r ++ w.newline ∷ [] in
      if leb u64_last d.memory.checkpoint.sequence
      then (d, corrupt at.primary "accounting sequence exhausted")
      else after (append_line flt.ledger line d) λ e.
        after (save_marker flt.marker (next_checkpoint d) e)
          (committed_to (next_checkpoint d) r.state (length line))

  pub commit_if_changed : Faults → Disk B → Disk B × Result (Unit {0})
  unfolding commit_record
  commit_if_changed flt d =
      if accounting_eq (accounting d.store.providers) (accounting d.memory.committed.providers)
      then (d, ok tt)
      else commit_record flt d

  pub replace_snapshot : Faults → Option (List B) → Disk B → Disk B × Result (Unit {0})
  unfolding save_backup save_snapshot
  replace_snapshot flt previous d =
      after (save_backup flt.backup previous (anchor d)) (save_snapshot flt.snapshot)

  pub proceed : Faults → Result (Option (List B)) → Disk B → Disk B × Result (Unit {0})
  unfolding commit_if_changed replace_snapshot
  proceed flt (err e) d = (d, err e)
  proceed flt (ok previous) d = after (commit_if_changed flt d) (replace_snapshot flt previous)

  abbrev pub poison : Disk B → Disk B
  poison d = record d { memory = record d.memory { poisoned = true } }

  unfoldable pub persist : Faults → Disk B → Disk B × Result (Unit {0})
  unfolding inspect proceed
  persist flt d =
      if d.memory.poisoned
      then (
        d,
        corrupt at.primary
            "previous persistence failure; reopen the scheduler before admitting traffic",
      )
      else proceed flt (inspect flt (poison d)) (poison d)
