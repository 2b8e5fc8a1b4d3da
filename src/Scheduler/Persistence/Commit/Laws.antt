-- ===== src/Scheduler/Persistence/Commit/Laws.antt =====
-- What `persist` of src/scheduler/persistence.rs does to the log, whatever call of it fails.
use netband.Base.{◌≡◌, refl, sym, ap, ◌∙◌, inl, inr, Option, none, some, List, [], ◌∷◌, ◌++◌, arith}
use mathlib.Core.List.{append-nil}
use netband.Scheduler.Store.{Result, ok, err}
use netband.Scheduler.Persistence.Format.{Checkpoint, Format, IsFormat}
use netband.Scheduler.Persistence.Log.Lines.{Torn, take, take-Torn}
use netband.Scheduler.Persistence.Commit.{
  Paths, Disk, Faults, Write, written, unchanged, replaced, Append, appended, torn, after,
  append_line, save_marker, save_backup, snapshot_saved, save_snapshot, anchor, next_record,
  replace_snapshot,
}

-- What the steps around a commit leave alone.
pub record Keeps {B : Type 0} (d e : Disk B) : Type 0 where
  pub ledger : e.files.ledger ≡ d.files.ledger
  pub checkpoint : e.memory.checkpoint ≡ d.memory.checkpoint
  pub committed : e.memory.committed ≡ d.memory.committed
  pub providers : e.store.providers ≡ d.store.providers
  pub schema : e.store.schema_version ≡ d.store.schema_version

pub Keeps-trans : {B : Type 0} (d e f : Disk B) → Keeps d e → Keeps e f → Keeps d f
Keeps-trans d e f h k = record {
  ledger = k.ledger ∙ h.ledger;
  checkpoint = k.checkpoint ∙ h.checkpoint;
  committed = k.committed ∙ h.committed;
  providers = k.providers ∙ h.providers;
  schema = k.schema ∙ h.schema;
}

pub Keeps-after :
    {B : Type 0} (d : Disk B) (r : Disk B × Result (Unit {0}))
    (f : Disk B → Disk B × Result (Unit {0}))
    → Keeps d r.0
    → ((e : Disk B) → Keeps e (f e).0)
    → Keeps d (after r f).0
Keeps-after d (e, ok u) f h k = Keeps-trans d e (f e).0 h (k e)
Keeps-after d (e, err x) f h k = h

-- A chain that succeeded went through both steps.
pub after-ok :
    {B : Type 0} (r : Disk B × Result (Unit {0})) (f : Disk B → Disk B × Result (Unit {0}))
    → (after r f).1 ≡ ok tt
    → (r.1 ≡ ok tt) × ((f r.0).1 ≡ ok tt) × (after r f ≡ f r.0)
after-ok (d, ok u) f h = (refl, h, refl)
after-ok (d, err e) f h = absurd (ground arith)

module _ {B : Type 0} (w : Format B) (at : Paths) where
  pub save_marker-Keeps :
      (fault : Write) (k : Checkpoint) (d : Disk B) → Keeps d (save_marker w at fault k d).0
  unfolding save_marker
  save_marker-Keeps fault k d = record {
    ledger = refl;
    checkpoint = refl;
    committed = refl;
    providers = refl;
    schema = refl;
  }

  save_backup-Keeps :
      (fault : Write) (previous : Option (List B)) (d : Disk B)
      → Keeps d (save_backup w at fault previous (anchor w at d)).0
  unfolding save_backup
  save_backup-Keeps fault none d = record {
    ledger = refl;
    checkpoint = refl;
    committed = refl;
    providers = refl;
    schema = refl;
  }
  save_backup-Keeps fault (some previous) d = record {
    ledger = refl;
    checkpoint = refl;
    committed = refl;
    providers = refl;
    schema = refl;
  }

  save_snapshot-Keeps : (fault : Write) (d : Disk B) → Keeps d (save_snapshot w at fault d).0
  unfolding save_snapshot snapshot_saved
  save_snapshot-Keeps written d = record {
    ledger = refl;
    checkpoint = refl;
    committed = refl;
    providers = refl;
    schema = refl;
  }
  save_snapshot-Keeps (unchanged e) d = record {
    ledger = refl;
    checkpoint = refl;
    committed = refl;
    providers = refl;
    schema = refl;
  }
  save_snapshot-Keeps (replaced e) d = record {
    ledger = refl;
    checkpoint = refl;
    committed = refl;
    providers = refl;
    schema = refl;
  }

  pub replace_snapshot-Keeps :
      (flt : Faults) (previous : Option (List B)) (d : Disk B)
      → Keeps d (replace_snapshot w at flt previous d).0
  unfolding replace_snapshot
  replace_snapshot-Keeps flt previous d =
      Keeps-after d (save_backup w at flt.backup previous (anchor w at d))
        (save_snapshot w at flt.snapshot) (save_backup-Keeps flt.backup previous d)
        (save_snapshot-Keeps flt.snapshot)

  -- The log of `e` is that of `d` with the first part of its next record, or nothing, at its end.
  pub record Extends (d e : Disk B) (bytes : List B) : Type 0 where
    pub part : List B
    pub bytes_after : e.files.ledger ≡ some (bytes ++ part)
    pub cut : Torn w (w.record_json (next_record w at d)) part

  pub Extends-Keeps :
      (d e f : Disk B) (bytes : List B) → Extends d e bytes → Keeps e f → Extends d f bytes
  Extends-Keeps d e f bytes x k = record {
    part = x.part;
    bytes_after = k.ledger ∙ x.bytes_after;
    cut = x.cut;
  }

  pub Extends-same :
      (d e : Disk B) (bytes : List B) → e.files.ledger ≡ some bytes → Extends d e bytes
  Extends-same d e bytes h = record {
    part = [];
    bytes_after = h ∙ ap (λ l. some l) (sym (append-nil bytes));
    cut = inl refl;
  }

  pub append_line-Extends :
      (laws : IsFormat w) (fault : Append) (d : Disk B) (bytes : List B)
      → d.files.ledger ≡ some bytes
      → Extends d
          (append_line w at fault (w.record_json (next_record w at d) ++ w.newline ∷ []) d).0
          bytes
  unfolding append_line
  append_line-Extends laws appended d bytes h = record {
    part = w.record_json (next_record w at d) ++ w.newline ∷ [];
    bytes_after = rw h refl;
    cut = inr (inl refl);
  }
  append_line-Extends laws (torn n e) d bytes h =
      let line = w.record_json (next_record w at d) in
      record {
        part = take n (line ++ w.newline ∷ []);
        bytes_after = rw h refl;
        cut = take-Torn w n line (laws.record_line (next_record w at d));
      }
