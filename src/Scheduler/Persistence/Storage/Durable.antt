-- ===== src/Scheduler/Persistence/Storage/Durable.antt =====
-- A start that `reserve_run` of src/scheduler.rs admits, and a restart of the process.
use netband.Base.{◌≡◌, subst, Bool, arith, str_eq_iff}
use netband.Chrono.{Chrono, Instant}
use netband.Dict.{get-insert}
use netband.Scheduler.Types.{ProviderState, Reservation}
use netband.Scheduler.Store.{Scheduler, ok}
use netband.Scheduler.Reserve.{reserve_run}
use netband.Scheduler.Reserve.Laws.{reserve_run-ok, booked_state, booked_store, reserve_run-disk}
use netband.Scheduler.Persistence.Format.{Format, IsFormat}
use netband.Scheduler.Persistence.Account.Laws.{Distinct, HasAccount}
use netband.Scheduler.Persistence.Commit.{Paths, Disk}
use netband.Scheduler.Persistence.Commit.Extension.{Tracks}
use netband.Scheduler.Persistence.Recover.{Opening}
use netband.Scheduler.Persistence.Restart.{Opened, open_persistence}
use netband.Scheduler.Persistence.Restart.Recovery.{open_persistence-persist}
use netband.Scheduler.Persistence.Storage.{storage, with_providers, first_faults}

module _ {B : Type 0} (c : Chrono) (w : Format B) (at : Paths) (reads : Opening)
    (changed : ProviderState → ProviderState → Bool) where
  Tracks-with_providers :
      (s : Scheduler (Disk B)) (now : Instant)
      → Tracks w at s.disk
      → Tracks w at (with_providers s.disk (booked_store c now s))
  Tracks-with_providers s now t = record {
    bytes = t.bytes;
    log = t.log;
    ledger = t.ledger;
    read = t.read;
    checkpoint = t.checkpoint;
    committed = t.committed;
    schema = t.schema;
  }

  -- Of a process whose memory agrees with its log, and whose store has distinct keys: when a start
  -- is reserved, every open of the files that succeeds afterwards has the provider with the
  -- accounting in which that start is booked.
  pub reserve_run_durable :
      (laws : IsFormat w) (now : Instant) (s : Scheduler (Disk B)) (r : Reservation) (o : Opened)
      → let files = (reserve_run c (storage w at reads changed) now s).0.disk.files in
        Tracks w at s.disk
        → Distinct (booked_store c now s)
        → (reserve_run c (storage w at reads changed) now s).1 ≡ ok r
        → (open_persistence w at reads files).1 ≡ ok o
        → HasAccount s.policy.provider_id (booked_state c now s) o.store.providers
  reserve_run_durable laws now s r o t distinct done h =
      let device = storage w at reads changed in
      let written = (reserve_run-ok c device now s r done).2 in
      let disk = reserve_run-disk c device now s r done in
      let d = with_providers s.disk (booked_store c now s) in
      let again = subst (λ d. (open_persistence w at reads d.files).1 ≡ ok o) disk h in
      let kept =
        open_persistence-persist w at laws (first_faults s.disk.faults) d reads o
          (Tracks-with_providers s now t) distinct written again in
      kept s.policy.provider_id (booked_state c now s) (
        ground (
          arith,
          get-insert s.policy.provider_id s.policy.provider_id (booked_state c now s) s.others,
          str_eq_iff s.policy.provider_id s.policy.provider_id,
        ))
