-- ===== src/Examples/Durability.antt =====
-- A start that is reserved on files, and a restart.
use netband.Base.{◌≡◌, ◌*◌, refl, true, [], ◌∷◌}
use netband.Base.Sorting.{unsorted}
use netband.Chrono.Utc.{utc}
use netband.Dict.{get, insert}
use netband.Scheduler.Types.{Reservation}
use netband.Scheduler.Store.{Storage, Scheduler, Result, ok, save, reply}
use netband.Scheduler.Store
use netband.Scheduler.Change.Validity.{is_invalid}
use netband.Scheduler.Admission.{block_reason, runs_on_day}
use netband.Scheduler.Clock.{reconcile_day}
use netband.Scheduler.Reserve.{reserve_run, book}
use netband.Scheduler.Reserve.Laws.{booked_state, booked_store}
use netband.Scheduler.Persistence.Format.{validate_store, new_record, parse_store}
use netband.Scheduler.Persistence.Account.{accounting_eq}
use netband.Scheduler.Persistence.Account.Laws.{HasAccount, Distinct}
use netband.Scheduler.Persistence.Log.{
  read_log, read_lines, read_records, read_record, read_header, validate_checkpoint,
}
use netband.Scheduler.Persistence.Log.Lines.{ends_with_newline, drop_last, split}
use netband.Scheduler.Persistence.Commit.{Disk, persist}
use netband.Scheduler.Persistence.Commit.Extension.{Tracks}
use netband.Scheduler.Persistence.Recover.{inspect_files}
use netband.Scheduler.Persistence.Restart.{open_persistence, Opened}
use netband.Scheduler.Persistence.Storage.{storage}
use netband.Scheduler.Persistence.Storage.Durable.{reserve_run_durable}
use netband.Examples.Fixtures.{due, policy, second, first_start}
use netband.Examples.Disks.{
  Symbol, symbols, symbols-IsFormat, paths, installed, no_trouble, no_records, opened_of,
  first_header,
}

abbrev device : Storage (Disk Symbol)
device = storage symbols paths no_trouble λ a b. true

abbrev on_disk : Scheduler (Disk Symbol)
on_disk = record { disk = installed []; others = []; state = due.state; policy = policy }

abbrev booked : Scheduler (Disk Symbol) × Result Reservation
booked = reserve_run utc device (6 * second) on_disk

abbrev restarted : Opened
restarted = opened_of (open_persistence symbols paths no_trouble booked.0.disk.files).1

booked-first_start : booked.1 ≡ ok first_start
unfolding reserve_run reconcile_day block_reason runs_on_day save reply book
    netband.Scheduler.Store.persist persist validate_store accounting_eq new_record is_invalid
    unsorted insert
booked-first_start = refl

restarts : (open_persistence symbols paths no_trouble booked.0.disk.files).1 ≡ ok restarted
unfolding reserve_run reconcile_day block_reason runs_on_day save reply book
    netband.Scheduler.Store.persist insert open_persistence inspect_files read_header is_invalid
    unsorted parse_store persist validate_store accounting_eq new_record read_log read_lines
    read_records read_record ends_with_newline drop_last split validate_checkpoint
restarts = refl

booked_store-Distinct : Distinct (booked_store utc (6 * second) on_disk)
unfolding insert get
booked_store-Distinct = (refl, tt)

on_disk-Tracks : Tracks symbols paths on_disk.disk
unfolding read_log read_lines read_header read_records ends_with_newline drop_last split
on_disk-Tracks = record {
  bytes = Symbol.of_header first_header ∷ Symbol.newline ∷ [];
  log = record { root = no_records; later = []; states = [] };
  ledger = refl;
  read = refl;
  checkpoint = refl;
  committed = refl;
  schema = refl;
}

reserve_run_durable_example :
    HasAccount "p" (booked_state utc (6 * second) on_disk) restarted.store.providers
reserve_run_durable_example =
    reserve_run_durable utc symbols paths no_trouble (λ a b. true) symbols-IsFormat (6 * second)
      on_disk first_start restarted on_disk-Tracks booked_store-Distinct booked-first_start restarts
