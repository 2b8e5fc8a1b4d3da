-- ===== src/Scheduler/Persistence/Recover/Reading.antt =====
-- What the first half of `Persistence::open` of src/scheduler/persistence.rs hands to the second.
use netband.Base.{◌≡◌, refl, sym, subst, Bool, true, false, Option, none, some, List, arith}
use netband.Scheduler.Store.{Result, ok}
use netband.Scheduler.Persistence.Format.{
  SchedulerStore, Format, ◌>>=◌, parsed, parse_store, validate_store, state_schema_version,
}
use netband.Scheduler.Persistence.Binds.{>>=-eq-ok}
use netband.Scheduler.Persistence.Log.{Log, last_state, read_log, validate_checkpoint}
use netband.Scheduler.Persistence.Log.Laws.{read_log-Counted}
use netband.Scheduler.Persistence.Commit.{Paths, Files}
use netband.Scheduler.Persistence.Recover.{
  Opening, Found, required, is_fresh, accept_idle, resume, initializing, choose_store, check_marked,
  read_all, inspect_files, found_state, gather,
}

module _ {B : Type 0} (w : Format B) (at : Paths) where
  accept_idle-ok :
      (flt : Opening) (backup : Option (List B)) (log : Log) (store : SchedulerStore)
      → accept_idle w at flt backup log ≡ ok store
      → last_state log ≡ store
  unfolding accept_idle
  accept_idle-ok flt backup log store h = ground arith

  -- The last state of a log that can be read.
  pub record Resumed (ledger : Option (List B)) (store : SchedulerStore) : Type 0 where
    pub bytes : List B
    pub log : Log
    pub content : ledger ≡ some bytes
    pub read : read_log w at.ledger bytes ≡ ok log
    pub last : last_state log ≡ store

  -- What `open` goes on with: the log as it was read, a store of the right schema, which is the
  -- last state of that log when an initialization is resumed.
  pub record Reads (ledger : Option (List B)) (found : Found B) : Type 0 where
    pub same : found.ledger ≡ ledger
    pub schema : found.store.schema_version ≡ state_schema_version
    pub resumed : found.resuming ≡ true → Resumed ledger found.store

  resume-ok :
      (flt : Opening) (files : Files B) (marker ledger : Option (List B)) (store : SchedulerStore)
      → resume w at flt files marker ledger ≡ ok store
      → Resumed ledger store
  unfolding resume
  resume-ok flt files marker none store h = absurd (ground arith)
  resume-ok flt files marker (some bytes) store h =
      let last : Log → Result SchedulerStore = λ log. do
        content ← required at.primary "initialized state is missing" marker
        k ← parsed at.marker (w.parse_checkpoint content)
        valid ← validate_checkpoint w at.marker k log
        accept_idle w at flt files.backup log
      in let step = >>=-eq-ok (read_log w at.ledger bytes) last store h in
        record {
          bytes = bytes;
          log = step.0;
          content = refl;
          read = step.1;
          last = ground (arith, step.2, accept_idle-ok flt files.backup step.0 store);
        }

  initializing-ok :
      (flt : Opening) (files : Files B) (fresh : Bool) (primary marker ledger : Option (List B))
      (store : SchedulerStore)
      → initializing w at flt files fresh primary marker ledger ≡ ok (some store)
      → (primary ≡ none) × (fresh ≡ false) × Resumed ledger store
  unfolding initializing
  initializing-ok flt files true primary marker ledger store h = absurd (ground arith)
  initializing-ok flt files false (some b) marker ledger store h = absurd (ground arith)
  initializing-ok flt files false none marker ledger store h =
      let step =
        >>=-eq-ok (resume w at flt files marker ledger) (λ s. ok (some s)) (some store) h in
      (refl, refl, resume-ok flt files marker ledger store (ground (arith, step.1, step.2)))

  choose_store-schema :
      (primary : Option (List B)) (fresh : Bool) (store : SchedulerStore)
      → choose_store w at primary fresh none ≡ ok store
      → store.schema_version ≡ state_schema_version
  unfolding choose_store parse_store validate_store
  choose_store-schema (some bytes) fresh store h = ground arith
  choose_store-schema none true store h = ground arith
  choose_store-schema none false store h = absurd (ground arith)

  found_state-Reads :
      (flt : Opening) (files : Files B) (primary marker ledger : Option (List B)) (fresh : Bool)
      (resumed : Option SchedulerStore) (found : Found B)
      → initializing w at flt files fresh primary marker ledger ≡ ok resumed
      → found_state w at primary marker ledger fresh resumed ≡ ok found
      → Reads ledger found
  unfolding found_state choose_store check_marked
  found_state-Reads flt files primary marker ledger fresh none found g h = record {
    same = ground arith;
    schema = ground (arith, choose_store-schema primary fresh found.store);
    resumed = λ r. absurd (ground arith);
  }
  found_state-Reads flt files primary marker ledger fresh (some store) found g h =
      let new_log = initializing-ok flt files fresh primary marker ledger store g in
      let r = new_log.2 in
      let chosen : found.store ≡ store = ground (arith, new_log.0, new_log.1) in
      record {
        same = ground arith;
        schema =
            ground
              (arith, chosen, r.last, (read_log-Counted w at.ledger r.bytes r.log r.read).schema);
        resumed = λ y. subst (Resumed ledger) (sym chosen) r;
      }

  gather-Reads :
      (flt : Opening) (files : Files B) (primary marker ledger : Option (List B)) (found : Found B)
      → gather w at flt files primary marker ledger ≡ ok found
      → Reads ledger found
  unfolding gather
  gather-Reads flt files primary marker ledger found h =
      let one =
        >>=-eq-ok (is_fresh w at flt primary marker files.backup)
          (λ fresh.
            initializing w at flt files fresh primary marker ledger
            >>= found_state w at primary marker ledger fresh)
          found h in
      let two =
        >>=-eq-ok (initializing w at flt files one.0 primary marker ledger)
          (found_state w at primary marker ledger one.0) found one.2 in
      found_state-Reads flt files primary marker ledger one.0 two.0 found two.1 two.2

  pub inspect_files-Reads :
      (flt : Opening) (files : Files B) (found : Found B)
      → inspect_files w at flt files ≡ ok found
      → Reads files.ledger found
  unfolding inspect_files read_all
  inspect_files-Reads flt files found h =
      gather-Reads flt files files.primary files.marker files.ledger found (ground arith)
