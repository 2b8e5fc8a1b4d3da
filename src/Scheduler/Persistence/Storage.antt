-- ===== src/Scheduler/Persistence/Storage.antt =====
-- The storage of src/scheduler.rs over the files of src/scheduler/persistence.rs: the faults that
-- are to come meet one `persist` each. Whether two states have one JSON text is given.
pub mod Durable
use netband.Base.{Bool, List, [], ◌∷◌, String}
use netband.Scheduler.Types.{ProviderState}
use netband.Scheduler.Store.{Result, ok, err, Storage, Providers}
use netband.Scheduler.Persistence.Format.{Format}
use netband.Scheduler.Persistence.Commit.{Paths, Files, Disk, Faults, no_faults, persist}
use netband.Scheduler.Persistence.Recover.{Opening}
use netband.Scheduler.Persistence.Restart.{Opened, open_persistence, needs_snapshot}

abbrev pub first_faults : List Faults → Faults
first_faults [] = no_faults
first_faults (f ∷ fs) = f

abbrev pub later_faults : List Faults → List Faults
later_faults [] = []
later_faults (f ∷ fs) = fs

abbrev pub with_providers : {B : Type 0} → Disk B → Providers → Disk B
with_providers d providers = record d {
  store = record d.store { providers = providers };
  faults = later_faults d.faults;
}

abbrev loaded : {B : Type 0} → Disk B → Files B × Result Opened → Disk B × Result (Providers × Bool)
loaded d (files, ok o) = (
  record d { files = files; memory = o.memory; store = o.store },
  ok (o.store.providers, o.recovered),
)
loaded d (files, err e) = (record d { files = files }, err e)

module _ {B : Type 0} (w : Format B) (at : Paths) (reads : Opening) where
  abbrev pub storage : (ProviderState → ProviderState → Bool) → Storage (Disk B)
  storage changed = record {
    load = λ d. loaded d (open_persistence w at reads d.files);
    needs_snapshot =
        λ d providers. needs_snapshot w at d.memory (record d.store { providers = providers });
    write = λ d providers. persist w at (first_faults d.faults) (with_providers d providers);
    changed = changed;
  }
