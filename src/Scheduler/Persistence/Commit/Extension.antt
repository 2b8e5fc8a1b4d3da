-- ===== src/Scheduler/Persistence/Commit/Extension.antt =====
-- The log after `persist` of src/scheduler/persistence.rs: how it has grown and what it reads to.
use netband.Base.{
  ◌≡◌, ◌⊎◌, refl, sym, ap, subst, ◌∙◌, Bool-cases, inl, inr, Option, none, some, List, [], ◌∷◌,
  ◌++◌, arith, leb,
}
use netband.Scheduler.Store.{Result, ok, err}
use netband.Scheduler.Persistence.Format.{Format, IsFormat, state_schema_version, new_record}
use netband.Scheduler.Persistence.Account.{accounting, accounting_eq}
use netband.Scheduler.Persistence.Log.{Log, last_checkpoint, last_state, read_log}
use netband.Scheduler.Persistence.Log.Laws.{read_log_cut, read_record-eq-ok, last_or-append}
use netband.Scheduler.Persistence.Commit.{
  Paths, Disk, Faults, after, inspect, append_line, save_marker, next_record, next_checkpoint,
  committed_to, commit_record, commit_if_changed, replace_snapshot, proceed, poison, persist,
  u64_last,
}
use netband.Scheduler.Persistence.Commit.Laws.{
  replace_snapshot-Keeps, Extends, Extends-same, append_line-Extends,
}

-- The memory of a process and the log it has open agree.
pub record Tracks {B : Type 0} (w : Format B) (at : Paths) (d : Disk B) : Type 0 where
  pub bytes : List B
  pub log : Log
  pub ledger : d.files.ledger ≡ some bytes
  pub read : read_log w at.ledger bytes ≡ ok log
  pub checkpoint : last_checkpoint log ≡ d.memory.checkpoint
  pub committed : last_state log ≡ d.memory.committed
  pub schema : d.store.schema_version ≡ state_schema_version

after-ledger :
    {B : Type 0} (r : Disk B × Result (Unit {0})) (f : Disk B → Disk B × Result (Unit {0}))
    → ((e : Disk B) → (f e).0.files.ledger ≡ e.files.ledger)
    → (after r f).0.files.ledger ≡ r.0.files.ledger
after-ledger (d, ok u) f h = h d
after-ledger (d, err e) f h = refl

module _ {B : Type 0} (w : Format B) (at : Paths) where
  Extends-ledger :
      (d e f : Disk B) (bytes : List B)
      → Extends w at d e bytes
      → f.files.ledger ≡ e.files.ledger
      → Extends w at d f bytes
  Extends-ledger d e f bytes x h = record {
    part = x.part;
    bytes_after = h ∙ x.bytes_after;
    cut = x.cut;
  }

  commit_record-Extends :
      (laws : IsFormat w) (flt : Faults) (d : Disk B) (bytes : List B)
      → d.files.ledger ≡ some bytes
      → Extends w at d (commit_record w at flt d).0 bytes
  unfolding commit_record new_record committed_to save_marker
  commit_record-Extends laws flt d bytes h =
      let line = w.record_json (next_record w at d) ++ w.newline ∷ [] in
      let appended = append_line w at flt.ledger line d in
      let k = next_checkpoint w at d in
      elim (Bool-cases (leb u64_last d.memory.checkpoint.sequence)) [
        | inl full ↦
            Extends-ledger d d (commit_record w at flt d).0 bytes (Extends-same w at d d bytes h)
              (rw (commit_record, full) refl)
        | inr room ↦
            Extends-ledger d appended.0 (commit_record w at flt d).0 bytes
              (append_line-Extends w at laws flt.ledger d bytes h)
              (rw (commit_record, room)
                (after-ledger appended _
                  λ e. after-ledger (save_marker w at flt.marker k e) _ λ f. refl))
      ]

  commit_if_changed-Extends :
      (laws : IsFormat w) (flt : Faults) (d : Disk B) (bytes : List B)
      → d.files.ledger ≡ some bytes
      → Extends w at d (commit_if_changed w at flt d).0 bytes
  unfolding commit_if_changed
  commit_if_changed-Extends laws flt d bytes h =
      elim (Bool-cases
        (accounting_eq (accounting d.store.providers) (accounting d.memory.committed.providers))) [
          | inl same ↦
              Extends-ledger d d _ bytes (Extends-same w at d d bytes h)
                (rw (commit_if_changed, same) refl)
          | inr changed ↦
              Extends-ledger d (commit_record w at flt d).0 _ bytes
                (commit_record-Extends laws flt d bytes h) (rw (commit_if_changed, changed) refl)
        ]

  proceed-Extends :
      (laws : IsFormat w) (flt : Faults) (seen : Result (Option (List B))) (d : Disk B)
      (bytes : List B)
      → d.files.ledger ≡ some bytes
      → Extends w at d (proceed w at flt seen d).0 bytes
  unfolding proceed
  proceed-Extends laws flt (err e) d bytes h = Extends-same w at d d bytes h
  proceed-Extends laws flt (ok previous) d bytes h =
      let committed = commit_if_changed w at flt d in
      Extends-ledger d committed.0 (after committed (replace_snapshot w at flt previous)).0 bytes
        (commit_if_changed-Extends laws flt d bytes h)
        (after-ledger committed (replace_snapshot w at flt previous)
          λ e. (replace_snapshot-Keeps w at flt previous e).ledger)

  -- Whatever fails, a persist leaves the log with a first part of the next record at its end: with
  -- nothing, with the whole line, or with a part that does not end the line.
  pub persist-Extends :
      (laws : IsFormat w) (flt : Faults) (d : Disk B) (bytes : List B)
      → d.files.ledger ≡ some bytes
      → Extends w at d (persist w at flt d).0 bytes
  unfolding persist
  persist-Extends laws flt d bytes h = elim (Bool-cases d.memory.poisoned) [
    | inl poisoned ↦
        Extends-ledger d d _ bytes (Extends-same w at d d bytes h) (rw (persist, poisoned) refl)
    | inr sound ↦
        let p = poison w at d in
        let x = proceed-Extends laws flt (inspect w at flt p) p bytes h in
        record { part = x.part; bytes_after = rw (persist, sound) x.bytes_after; cut = x.cut }
  ]

  -- After a persist, with any faults, a log that can still be read ends with the state committed
  -- before, or with the store that was in memory.
  pub persist-last_state :
      (laws : IsFormat w) (flt : Faults) (d : Disk B)
      → Tracks w at d
      → (bytes : List B) (log : Log) → (persist w at flt d).0.files.ledger ≡ some bytes
      → read_log w at.ledger bytes ≡ ok log
      → (last_state log ≡ d.memory.committed)
        ⊎ (last_state log ≡ record d.store { checkpoint = none })
  unfolding new_record
  persist-last_state laws flt d t bytes log h read =
      let x = persist-Extends laws flt d t.bytes t.ledger in
      let r = next_record w at d in
      let grown : bytes ≡ t.bytes ++ x.part = ground (arith, x.bytes_after) in
      let again = subst (λ b. read_log w at.ledger b ≡ ok log) grown read in
      elim (read_log_cut w at.ledger laws t.bytes (w.record_json r) x.part t.log log t.read
        (laws.record_line r) x.cut again) [
          | inl same ↦
              let old : read_log w at.ledger t.bytes ≡ ok log =
                subst (λ b. read_log w at.ledger b ≡ ok log) same again in
              inl (ground (arith, t.read, t.committed))
          | inr next ↦
              let pushed = read_record-eq-ok w at.ledger laws t.log log r next in
              inr (
                sym (ap (λ l. last_state l) pushed)
                ∙ last_or-append _ t.log.states (record d.store { checkpoint = none }))
        ]
