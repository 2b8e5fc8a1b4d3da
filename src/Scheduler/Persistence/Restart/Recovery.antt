-- ===== src/Scheduler/Persistence/Restart/Recovery.antt =====
-- `Persistence::open` of src/scheduler/persistence.rs as a whole, and after a `persist` that failed.
use netband.Base.{
  [], ◌≡◌, ◌⊎◌, sym, ap, subst, ◌∙◌, inl, inr, Option, none, some, List, ◌++◌, arith,
}
use netband.Scheduler.Store.{ok}
use netband.Scheduler.Persistence.Format.{SchedulerStore, Format, IsFormat}
use netband.Scheduler.Persistence.Account.Laws.{
  Distinct, accounting-HasAccount, Distinct-accounting,
}
use netband.Scheduler.Persistence.Log.{Log, last_state, read_log}
use netband.Scheduler.Persistence.Commit.{Paths, Disk, Files, Faults, persist}
use netband.Scheduler.Persistence.Commit.Extension.{Tracks, persist-Extends, persist-last_state}
use netband.Scheduler.Persistence.Commit.Outcome.{persist-Committed}
use netband.Scheduler.Persistence.Recover.{Opening, Found, inspect_files}
use netband.Scheduler.Persistence.Recover.Reading.{Reads, inspect_files-Reads}
use netband.Scheduler.Persistence.Restart.{
  Opened, accept, accepted_state, check_snapshot, install, log_of, open_persistence,
}
use netband.Scheduler.Persistence.Restart.Safety.{
  in_order-ok, LogRead, Installs, KeepsAccounts, log_of-LogRead, accepted_state-KeepsAccounts,
  accepted_state-schema, accept-eq-ok, install-Installs,
}

-- The process that goes on with what `open` returned.
abbrev pub running : {B : Type 0} → Files B → Opened → List Faults → Disk B
running files o faults = record {
  files = files;
  memory = o.memory;
  store = o.store;
  faults = faults;
}

module _ {B : Type 0} (w : Format B) (at : Paths) where
  pub record Recovered (ledger : Option (List B)) (files : Files B) (o : Opened) : Type 0 where
    pub tracks : (faults : List Faults) → Tracks w at (running files o faults)
    pub accounts :
        Distinct o.memory.committed.providers
        → KeepsAccounts o.memory.committed.providers o.store.providers
    pub origin :
        (bytes : List B)
        → ledger ≡ some bytes
        → (log : Log) × (read_log w at.ledger bytes ≡ ok log)
          × (last_state log ≡ o.memory.committed)

  installed-Recovered :
      (found : Found B) (log : Log) (ledger : Option (List B)) (files r : Files B) (o : Opened)
      → Reads w at ledger found
      → LogRead w at found.ledger files log
      → check_snapshot w at found log ≡ ok tt
      → Installs w at files log (accepted_state w at found log) r o
      → Recovered ledger r o
  installed-Recovered found log ledger files r o reads l valid i = record {
    tracks = λ faults. record {
      bytes = l.bytes;
      log = log;
      ledger = i.ledger ∙ l.content;
      read = l.read;
      checkpoint = i.checkpoint;
      committed = i.committed;
      schema =
          sym (ap (λ s. s.schema_version) i.store)
          ∙ (accepted_state-schema w at found log ∙ reads.schema);
    };
    origin = λ bytes e. (log, ground (arith, reads.same, l.read, l.origin, e), i.committed);
    accounts = λ distinct.
        let l : LogRead w at ledger files log =
          subst (λ x. LogRead w at x files log) reads.same l in
        let before : Distinct (last_state log).providers =
          subst (λ s. Distinct s.providers) (sym i.committed) distinct in
        subst (λ s. KeepsAccounts s.providers o.store.providers) i.committed
          (subst (λ s. KeepsAccounts (last_state log).providers s.providers) i.store
            (accepted_state-KeepsAccounts w at found log ledger files reads l valid before));
  }

  -- An open that succeeds is `Recovered`.
  pub open_persistence-Recovered :
      (flt : Opening) (files : Files B) (o : Opened)
      → (open_persistence w at flt files).1 ≡ ok o
      → Recovered files.ledger (open_persistence w at flt files).0 o
  unfolding open_persistence
  open_persistence-Recovered flt files o h =
      let one = in_order-ok (files, inspect_files w at flt files) _ o h in
      let found = one.0 in
      let reads = inspect_files-Reads w at flt files found one.1 in
      let logged = log_of w at flt found.fresh found.ledger files in
      let two = in_order-ok logged _ o (sym (ap (λ p. p.1) one.2) ∙ h) in
      let log = two.0 in
      let l = log_of-LogRead w at flt found.fresh found.ledger files log (sym reads.same) two.1 in
      let three =
        in_order-ok (logged.0, accept w at found log) (install w at flt found log) o
          (sym (ap (λ p. p.1) (one.2 ∙ two.2)) ∙ h) in
      let a = three.0 in
      let fine = accept-eq-ok w at found log a three.1 in
      let whole = one.2 ∙ (two.2 ∙ three.2) in
      let i = install-Installs w at flt found log logged.0 a o (sym (ap (λ p. p.1) whole) ∙ h) in
      subst (λ p. Recovered files.ledger p.0 o) (sym whole)
        (installed-Recovered found log files.ledger logged.0
          (install w at flt found log logged.0 a).0 o reads l fine.0
          (subst
            (λ a. Installs w at logged.0 log a (install w at flt found log logged.0 three.0).0 o)
            (sym fine.1) i))

  -- Whatever the files hold, after an open that succeeds the memory agrees with the log in the files,
  -- and the store has the accounting of every provider of the last record, whose keys are distinct.
  pub open_persistence-KeepsAccounts :
      (flt : Opening) (files : Files B) (o : Opened)
      → (open_persistence w at flt files).1 ≡ ok o
      → Distinct o.memory.committed.providers
      → Tracks w at (running (open_persistence w at flt files).0 o [])
        × KeepsAccounts o.memory.committed.providers o.store.providers
  open_persistence-KeepsAccounts flt files o h distinct =
      let r = open_persistence-Recovered flt files o h in (r.tracks [], r.accounts distinct)

  committed-KeepsAccounts :
      (ledger : Option (List B)) (files : Files B) (o : Opened) (state : SchedulerStore)
      → Recovered ledger files o
      → o.memory.committed ≡ state
      → Distinct state.providers
      → KeepsAccounts state.providers o.store.providers
  committed-KeepsAccounts ledger files o state r e distinct =
      subst (λ s. KeepsAccounts s.providers o.store.providers) e
        (r.accounts (subst (λ s. Distinct s.providers) (sym e) distinct))

  -- A persist that fails at any call, or a crash in it, loses no accounting: an open of the files it
  -- left that succeeds has, for every provider, the accounting that was committed before, or for
  -- every provider that of the store in memory. No two entries of either store have one key.
  pub persist-open_persistence-KeepsAccounts :
      (laws : IsFormat w) (flt : Faults) (d : Disk B) (reads : Opening) (o : Opened)
      → Tracks w at d
      → Distinct d.memory.committed.providers
      → Distinct d.store.providers
      → (open_persistence w at reads (persist w at flt d).0.files).1 ≡ ok o
      → KeepsAccounts d.memory.committed.providers o.store.providers
        ⊎ KeepsAccounts d.store.providers o.store.providers
  persist-open_persistence-KeepsAccounts laws flt d reads o t before now h =
      let x = persist-Extends w at laws flt d t.bytes t.ledger in
      let left = (persist w at flt d).0.files in
      let r = open_persistence-Recovered reads left o h in
      let found = r.origin (t.bytes ++ x.part) x.bytes_after in
      elim (persist-last_state w at laws flt d t (t.bytes ++ x.part) found.0 x.bytes_after
        found.1) [
          | inl old ↦ inl (
              committed-KeepsAccounts left.ledger (open_persistence w at reads left).0 o
                d.memory.committed r (sym found.2 ∙ old) before)
          | inr new ↦ inr (
              committed-KeepsAccounts left.ledger (open_persistence w at reads left).0 o
                (record d.store { checkpoint = none }) r (sym found.2 ∙ new) now)
        ]

  -- What a persist that succeeded has written, an open that succeeds reads back: its store has the
  -- accounting of every provider of the store that was persisted, whose keys are distinct.
  pub open_persistence-persist :
      (laws : IsFormat w) (flt : Faults) (d : Disk B) (reads : Opening) (o : Opened)
      → Tracks w at d
      → Distinct d.store.providers
      → (persist w at flt d).1 ≡ ok tt
      → (open_persistence w at reads (persist w at flt d).0.files).1 ≡ ok o
      → KeepsAccounts d.store.providers o.store.providers
  open_persistence-persist laws flt d reads o t distinct done h =
      let c = persist-Committed w at laws flt d t done in
      let e = (persist w at flt d).0 in
      let r = open_persistence-Recovered reads e.files o h in
      let found = r.origin c.tracks.bytes c.tracks.ledger in
      let last : o.memory.committed ≡ e.memory.committed =
        ground (arith, found.1, found.2, c.tracks.read, c.tracks.committed) in
      let kept =
        committed-KeepsAccounts e.files.ledger (open_persistence w at reads e.files).0 o
          e.memory.committed r last
          (Distinct-accounting d.store.providers e.memory.committed.providers (sym c.account)
            distinct) in
      λ id a g.
        let b =
          accounting-HasAccount id a d.store.providers e.memory.committed.providers (sym c.account)
            g in
        let k = kept id b.0 b.1 in (k.0, k.1, k.2 ∙ b.2)
