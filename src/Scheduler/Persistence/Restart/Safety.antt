-- ===== src/Scheduler/Persistence/Restart/Safety.antt =====
-- What `Persistence::open` of src/scheduler/persistence.rs returns, beside the log.
use netband.Base.{
  ◌≡◌, ◌⊎◌, refl, ap, subst, ◌∙◌, Bool, true, false, Bool-cases, inl, inr, Option, none, some,
  String, List, [], ◌∷◌, arith, length,
}
use netband.Dict.{get}
use netband.Scheduler.Types.{ProviderState, SchedulerError}
use netband.Scheduler.Store.{Result, ok, err, Providers}
use netband.Scheduler.Persistence.Format.{Checkpoint, SchedulerStore, Format, default_store}
use netband.Scheduler.Persistence.Account.Laws.{
  Distinct, HasAccount, replay-HasAccount, accounting-HasAccount, accounting_eq-true,
}
use netband.Scheduler.Persistence.Log.{
  Log, last_checkpoint, last_state, last_or, read_log, validate_checkpoint,
}
use netband.Scheduler.Persistence.Log.Laws.{Counted, read_log-Counted, get_elem?-last}
use netband.Scheduler.Persistence.Commit.{Paths, Files, Write, written, unchanged, replaced}
use netband.Scheduler.Persistence.Recover.{Opening, Found, is_empty}
use netband.Scheduler.Persistence.Recover.Reading.{Resumed, Reads}
use netband.Scheduler.Persistence.Restart.{
  Opened, Accepted, in_order, state_at, is_checkpoint, same_accounting, created, fresh_header,
  create_log, log_of, check_same, check_baseline, check_snapshot, is_behind, accepted_state, accept,
  opened_state, move_marker, install,
}

pub in_order-ok :
    {S A B : Type 0} (r : S × Result A) (f : S → A → S × Result B) (b : B)
    → (in_order r f).1 ≡ ok b
    → (a : A) × (r.1 ≡ ok a) × (in_order r f ≡ f r.0 a)
in_order-ok (s, ok a) f b h = (a, refl, refl)
in_order-ok (s, err e) f b h = absurd (ground arith)

-- `loaded` has the accounting of every provider of `recorded`.
abbrev pub KeepsAccounts : Providers → Providers → Type 0
KeepsAccounts recorded loaded =
    (id : String) (a : ProviderState) → get id recorded ≡ some a → HasAccount id a loaded

module _ {B : Type 0} (w : Format B) (at : Paths) where
  -- The log that was read, or was created, is the one in the files.
  pub record LogRead (ledger : Option (List B)) (files : Files B) (log : Log) : Type 0 where
    pub bytes : List B
    pub content : files.ledger ≡ some bytes
    pub read : read_log w at.ledger bytes ≡ ok log
    pub origin : (ledger ≡ some bytes) ⊎ (ledger ≡ none)

  created-LogRead :
      (fault : Write) (bytes : List B) (files : Files B) (log : Log)
      → (created w at fault bytes files).1 ≡ ok log
      → LogRead none (created w at fault bytes files).0 log
  unfolding created
  created-LogRead written bytes files log h = record {
    bytes = bytes;
    content = refl;
    read = h;
    origin = inr refl;
  }
  created-LogRead (unchanged e) bytes files log h = absurd (ground arith)
  created-LogRead (replaced e) bytes files log h = absurd (ground arith)

  create_log-LogRead :
      (fault : Write) (identity : SchedulerError ⊎ String) (files : Files B) (log : Log)
      → (create_log w at fault identity files).1 ≡ ok log
      → LogRead none (create_log w at fault identity files).0 log
  unfolding create_log
  create_log-LogRead fault (inl e) files log h = absurd (ground arith)
  create_log-LogRead fault (inr identity) files log h =
      created-LogRead fault (fresh_header w at identity) files log h

  pub log_of-LogRead :
      (flt : Opening) (fresh : Bool) (ledger : Option (List B)) (files : Files B) (log : Log)
      → files.ledger ≡ ledger
      → (log_of w at flt fresh ledger files).1 ≡ ok log
      → LogRead ledger (log_of w at flt fresh ledger files).0 log
  unfolding log_of
  log_of-LogRead flt fresh (some bytes) files log e h = record {
    bytes = bytes;
    content = e;
    read = h;
    origin = inl refl;
  }
  log_of-LogRead flt true none files log e h =
      create_log-LogRead flt.ledger flt.identity files log h
  log_of-LogRead flt false none files log e h = absurd (ground arith)

  state_at-length :
      (log : Log) (states : List SchedulerStore)
      → log.states ≡ states
      → is_empty states ≡ false
      → state_at log (length states) ≡ some (last_or default_store states)
  state_at-length log [] e h = absurd (ground arith)
  state_at-length log (s ∷ states) e h = rw e (get_elem?-last default_store s states)

  state_at-last_checkpoint :
      (log : Log)
      → Counted log
      → is_empty log.states ≡ false
      → state_at log (last_checkpoint log).sequence ≡ some (last_state log)
  state_at-last_checkpoint log c h = rw c.counted (state_at-length log log.states refl h)

  check_baseline-eq-ok :
      (store : SchedulerStore) (log : Log) (k : Checkpoint)
      → store.checkpoint ≡ some k
      → check_baseline w at store log ≡ ok tt
      → same_accounting (state_at log k.sequence) store ≡ true
  unfolding check_baseline check_same validate_checkpoint
  check_baseline-eq-ok store log k e h = ground arith

  check_baseline-KeepsAccounts :
      (store : SchedulerStore) (log : Log) (o : Option Checkpoint)
      → store.checkpoint ≡ o
      → Counted log
      → is_empty log.states ≡ false
      → is_checkpoint o (last_checkpoint log) ≡ true
      → check_baseline w at store log ≡ ok tt
      → KeepsAccounts (last_state log).providers store.providers
  check_baseline-KeepsAccounts store log none e c some_states current h = absurd (ground arith)
  check_baseline-KeepsAccounts store log (some k) e c some_states current h =
      let same : same_accounting (state_at log k.sequence) store ≡ true =
        check_baseline-eq-ok store log k e h in
      let counted : k.sequence ≡ (last_checkpoint log).sequence = ground arith in
      let found : state_at log k.sequence ≡ some (last_state log) =
        ap (λ n. state_at log n) counted ∙ state_at-last_checkpoint log c some_states in
      let agrees = subst (λ o. same_accounting o store ≡ true) found same in
      λ id a.
        accounting-HasAccount id a (last_state log).providers store.providers
          (accounting_eq-true _ _ agrees)

  last_or-is_empty :
      (states : List SchedulerStore)
      → is_empty states ≡ true
      → last_or default_store states ≡ default_store
  last_or-is_empty [] h = refl
  last_or-is_empty (s ∷ states) h = absurd (ground arith)

  Resumed-LogRead :
      (log : Log) (store : SchedulerStore) (ledger : Option (List B)) (files : Files B)
      → LogRead ledger files log
      → Resumed w at ledger store
      → last_state log ≡ store
  Resumed-LogRead log store ledger files l x =
      ground (arith, l.read, l.origin, x.content, x.read, x.last)

  -- A store that is not behind the log has the accounting of its last record.
  check_snapshot-KeepsAccounts :
      (found : Found B) (log : Log) (ledger : Option (List B)) (files : Files B)
      → Reads w at ledger found
      → LogRead ledger files log
      → is_behind w at found log ≡ false
      → check_snapshot w at found log ≡ ok tt
      → KeepsAccounts (last_state log).providers found.store.providers
  unfolding check_snapshot is_behind get
  check_snapshot-KeepsAccounts found log ledger files r l current h =
      elim (Bool-cases (is_empty log.states)) [
        | inl empty ↦ λ id a g. absurd (ground (arith, g, last_or-is_empty log.states empty))
        | inr some_states ↦ elim (Bool-cases found.resuming) [
          | inl resuming ↦
              let same = Resumed-LogRead log found.store ledger files l (r.resumed resuming) in
              subst (λ s. KeepsAccounts (last_state log).providers s.providers) same
                λ id a g. (a, g, refl)
          | inr other ↦
              check_baseline-KeepsAccounts found.store log found.store.checkpoint refl
                (read_log-Counted w at.ledger l.bytes log l.read) some_states (ground arith)
                (ground arith)
        ]
      ]

  pub accepted_state-KeepsAccounts :
      (found : Found B) (log : Log) (ledger : Option (List B)) (files : Files B)
      → Reads w at ledger found
      → LogRead ledger files log
      → check_snapshot w at found log ≡ ok tt
      → Distinct (last_state log).providers
      → KeepsAccounts (last_state log).providers (accepted_state w at found log).store.providers
  unfolding accepted_state
  accepted_state-KeepsAccounts found log ledger files r l h distinct =
      elim (Bool-cases (is_behind w at found log)) [
        | inl behind ↦
            rw (accepted_state, behind)
              λ id a g.
                replay-HasAccount id a (last_state log).providers found.store.providers distinct g
        | inr current ↦
            rw (accepted_state, current)
              (check_snapshot-KeepsAccounts found log ledger files r l current h)
      ]

  pub accepted_state-schema :
      (found : Found B) (log : Log)
      → (accepted_state w at found log).store.schema_version ≡ found.store.schema_version
  unfolding accepted_state is_behind
  accepted_state-schema found log = ground arith

  pub accept-eq-ok :
      (found : Found B) (log : Log) (a : Accepted)
      → accept w at found log ≡ ok a
      → (check_snapshot w at found log ≡ ok tt) × (accepted_state w at found log ≡ a)
  unfolding accept
  accept-eq-ok found log a h = (ground arith, ground arith)

  -- What `install` sets.
  pub record Installs (files : Files B) (log : Log) (a : Accepted) (r : Files B) (o : Opened)
      : Type 0 where
    pub ledger : r.ledger ≡ files.ledger
    pub checkpoint : last_checkpoint log ≡ o.memory.checkpoint
    pub committed : last_state log ≡ o.memory.committed
    pub store : a.store ≡ o.store

  pub install-Installs :
      (flt : Opening) (found : Found B) (log : Log) (files : Files B) (a : Accepted) (o : Opened)
      → (install w at flt found log files a).1 ≡ ok o
      → Installs files log a (install w at flt found log files a).0 o
  unfolding install move_marker opened_state
  install-Installs flt found log files a o h = record {
    ledger = ground arith;
    checkpoint = ground arith;
    committed = ground arith;
    store = ground arith;
  }
