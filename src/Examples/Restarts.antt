-- ===== src/Examples/Restarts.antt =====
-- Commits and recoveries at a concrete input.
use netband.Base.{List, ◌≡◌, ◌⊎◌, refl, some, [], ◌∷◌}
use netband.Scheduler.Store.{ok, err}
use netband.Scheduler.Persistence.Format.{corrupt, validate_store, new_record, parse_store}
use netband.Dict.{get, insert}
use netband.Scheduler.Change.Validity.{is_invalid}
use netband.Base.Sorting.{unsorted}
use netband.Scheduler.Persistence.Recover.{inspect_files}
use netband.Scheduler.Persistence.Account.{accounting_eq, replay, replay_accounting}
use netband.Scheduler.Persistence.Account.Laws.{Distinct}
use netband.Scheduler.Persistence.Log.{
  Log, read_log, read_lines, read_records, read_record, read_header, last_state,
  validate_checkpoint,
}
use netband.Scheduler.Persistence.Log.Lines.{ends_with_newline, drop_last, split}
use netband.Scheduler.Persistence.Commit.{persist, no_faults}
use netband.Scheduler.Persistence.Commit.Extension.{Tracks, persist-last_state}
use netband.Scheduler.Persistence.Commit.Poison.{persist_poisoned}
use netband.Scheduler.Persistence.Restart.{open_persistence}
use netband.Scheduler.Persistence.Restart.Safety.{KeepsAccounts}
use netband.Scheduler.Persistence.Restart.Recovery.{
  persist-open_persistence-KeepsAccounts, open_persistence-persist, open_persistence-KeepsAccounts,
  running,
}
use netband.Examples.Disks.{
  Symbol, symbols, symbols-IsFormat, paths, installed, saved, replayed, first_record, second_record,
  two_records, ran_twice_store, ran_twice, first_header, no_records, one_record, ran, ran_store,
  no_space, late_fault, no_trouble, reopened,
}

abbrev empty_log : Log
empty_log = record { root = no_records; later = []; states = [] }

installed-Tracks : Tracks symbols paths (installed [])
unfolding read_log read_lines read_header read_records ends_with_newline drop_last split
installed-Tracks = record {
  bytes = Symbol.of_header first_header ∷ Symbol.newline ∷ [];
  log = empty_log;
  ledger = refl;
  read = refl;
  checkpoint = refl;
  committed = refl;
  schema = refl;
}

persisted : (persist symbols paths no_faults (installed [])).1 ≡ ok tt
unfolding persist validate_store accounting_eq new_record is_invalid unsorted
persisted = refl

reopens :
    (open_persistence symbols paths no_trouble
      (persist symbols paths no_faults (installed [])).0.files).1
    ≡ ok reopened
unfolding open_persistence inspect_files read_header is_invalid unsorted parse_store persist
    validate_store accounting_eq new_record read_log read_lines read_records read_record
    ends_with_newline drop_last split validate_checkpoint
reopens = refl

ran-Distinct : Distinct (("p", ran) ∷ [])
unfolding get
ran-Distinct = (refl, tt)

ran_twice-Distinct : Distinct (("p", ran_twice) ∷ [])
unfolding get
ran_twice-Distinct = (refl, tt)

open_persistence-persist_example : KeepsAccounts (("p", ran) ∷ []) reopened.store.providers
open_persistence-persist_example =
    open_persistence-persist symbols paths symbols-IsFormat no_faults (installed []) no_trouble
      reopened installed-Tracks ran-Distinct persisted reopens

one_record_log : Log
one_record_log = record { root = no_records; later = one_record ∷ []; states = ran_store ∷ [] }

saved-Tracks : Tracks symbols paths (saved [])
unfolding one_record_log read_header is_invalid unsorted validate_store accounting_eq new_record
    read_log read_lines read_records read_record ends_with_newline drop_last split
    validate_checkpoint
saved-Tracks = record {
  bytes =
      Symbol.of_header first_header
      ∷ Symbol.newline
      ∷ Symbol.of_record first_record
      ∷ Symbol.newline
      ∷ [];
  log = one_record_log;
  ledger = refl;
  read = refl;
  checkpoint = refl;
  committed = refl;
  schema = refl;
}

failed : (persist symbols paths late_fault (saved [])).1 ≡ err no_space
unfolding persist validate_store accounting_eq new_record is_invalid unsorted
failed = refl

recovers :
    (open_persistence symbols paths no_trouble
      (persist symbols paths late_fault (saved [])).0.files).1
    ≡ ok replayed
unfolding open_persistence inspect_files read_header is_invalid unsorted parse_store persist
    validate_store accounting_eq new_record read_log read_lines read_records read_record
    ends_with_newline drop_last split validate_checkpoint replay insert get replay_accounting
recovers = refl

persist-open_persistence-KeepsAccounts_example :
    KeepsAccounts (("p", ran) ∷ []) replayed.store.providers
    ⊎ KeepsAccounts (("p", ran_twice) ∷ []) replayed.store.providers
persist-open_persistence-KeepsAccounts_example =
    persist-open_persistence-KeepsAccounts symbols paths symbols-IsFormat late_fault (saved [])
      no_trouble replayed saved-Tracks ran-Distinct ran_twice-Distinct recovers

persist_poisoned_example :
    let left = (persist symbols paths late_fault (saved [])).0 in
    persist symbols paths no_faults left ≡ (
      left,
      corrupt "s.json"
          "previous persistence failure; reopen the scheduler before admitting traffic",
    )
persist_poisoned_example =
    persist_poisoned symbols paths late_fault no_faults (saved []) no_space failed

open_persistence-KeepsAccounts_example :
    let files = (persist symbols paths late_fault (saved [])).0.files in
    Tracks symbols paths (running (open_persistence symbols paths no_trouble files).0 replayed [])
    × KeepsAccounts (("p", ran_twice) ∷ []) replayed.store.providers
open_persistence-KeepsAccounts_example =
    open_persistence-KeepsAccounts symbols paths no_trouble
      (persist symbols paths late_fault (saved [])).0.files replayed recovers ran_twice-Distinct

two_records_log : Log
two_records_log = record {
  root = no_records;
  later = one_record ∷ two_records ∷ [];
  states = ran_store ∷ ran_twice_store ∷ [];
}

abbrev grown : List Symbol
grown =
    Symbol.of_header first_header
    ∷ Symbol.newline
    ∷ Symbol.of_record first_record
    ∷ Symbol.newline
    ∷ Symbol.of_record second_record
    ∷ Symbol.newline
    ∷ []

grows : (persist symbols paths late_fault (saved [])).0.files.ledger ≡ some grown
unfolding persist validate_store accounting_eq new_record is_invalid unsorted
grows = refl

reads_two : read_log symbols paths.ledger grown ≡ ok two_records_log
unfolding two_records_log read_header is_invalid unsorted validate_store new_record read_log
    read_lines read_records read_record ends_with_newline drop_last split
reads_two = refl

persist-last_state_example :
    (last_state two_records_log ≡ ran_store) ⊎ (last_state two_records_log ≡ ran_twice_store)
persist-last_state_example =
    persist-last_state symbols paths symbols-IsFormat late_fault (saved []) saved-Tracks grown
      two_records_log grows reads_two
