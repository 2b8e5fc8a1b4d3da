-- ===== src/Scheduler/Persistence/Commit/Poison.antt =====
-- `poisoned` of src/scheduler/persistence.rs: what follows a `persist` that fails.
use netband.Base.{
  ◌≡◌, refl, sym, ap, subst, ◌∙◌, true, Bool-cases, inl, inr, Option, none, some, List, arith, leb,
  length, ◌∷◌, [], ◌++◌,
}
use netband.Scheduler.Types.{SchedulerError}
use netband.Scheduler.Store.{Result, ok, err}
use netband.Scheduler.Persistence.Format.{Format, corrupt}
use netband.Scheduler.Persistence.Account.{accounting, accounting_eq}
use netband.Scheduler.Persistence.Commit.Outcome.{commit_record-chain}
use netband.Scheduler.Persistence.Commit.{
  Paths, Disk, Faults, Write, written, unchanged, replaced, after, inspect, append_line,
  save_marker, save_backup, save_snapshot, snapshot_saved, anchor, next_record, next_checkpoint,
  committed_to, commit_record, commit_if_changed, replace_snapshot, proceed, poison, persist,
  u64_last,
}

abbrev pub Poisoned : {B : Type 0} → Disk B → Type 0
Poisoned d = d.memory.poisoned ≡ true

-- A result that is an error comes with a poisoned object.
abbrev pub Sticky : {B : Type 0} → Disk B × Result (Unit {0}) → Type 0
Sticky r = (e : SchedulerError) → r.1 ≡ err e → Poisoned r.0

after-Poisoned :
    {B : Type 0} (r : Disk B × Result (Unit {0})) (f : Disk B → Disk B × Result (Unit {0}))
    → Poisoned r.0
    → ((d : Disk B) → Poisoned d → Poisoned (f d).0)
    → Poisoned (after r f).0
after-Poisoned (d, ok u) f p h = h d p
after-Poisoned (d, err e) f p h = p

after-Sticky :
    {B : Type 0} (r : Disk B × Result (Unit {0})) (f : Disk B → Disk B × Result (Unit {0}))
    → Poisoned r.0
    → ((d : Disk B) → Poisoned d → Sticky (f d))
    → Sticky (after r f)
after-Sticky (d, ok u) f p h = h d p
after-Sticky (d, err e) f p h = λ x failed. p

module _ {B : Type 0} (w : Format B) (at : Paths) where
  commit_record-Poisoned :
      (flt : Faults) (d : Disk B) → Poisoned d → Poisoned (commit_record w at flt d).0
  unfolding commit_record append_line save_marker committed_to
  commit_record-Poisoned flt d p =
      let k = next_checkpoint w at d in
      let r = next_record w at d in
      let line = w.record_json r ++ w.newline ∷ [] in
      let finish = committed_to w at k r.state (length line) in
      elim (Bool-cases (leb u64_last d.memory.checkpoint.sequence)) [
        | inl full ↦ rw (commit_record, full) p
        | inr room ↦
            subst (λ r. Poisoned r.0) (sym (commit_record-chain w at flt d room))
              (after-Poisoned (append_line w at flt.ledger line d)
                (λ e. after (save_marker w at flt.marker k e) finish) p
                λ e q. after-Poisoned (save_marker w at flt.marker k e) finish q λ f o. o)
      ]

  commit_if_changed-Poisoned :
      (flt : Faults) (d : Disk B) → Poisoned d → Poisoned (commit_if_changed w at flt d).0
  unfolding commit_if_changed
  commit_if_changed-Poisoned flt d p =
      elim (Bool-cases
        (accounting_eq (accounting d.store.providers) (accounting d.memory.committed.providers))) [
          | inl same ↦ rw (commit_if_changed, same) p
          | inr changed ↦ rw (commit_if_changed, changed) (commit_record-Poisoned flt d p)
        ]

  save_backup-Poisoned :
      (fault : Write) (previous : Option (List B)) (d : Disk B)
      → Poisoned d
      → Poisoned (save_backup w at fault previous d).0
  unfolding save_backup
  save_backup-Poisoned fault none d p = p
  save_backup-Poisoned fault (some previous) d p = p

  save_snapshot-Sticky :
      (fault : Write) (d : Disk B) → Poisoned d → Sticky (save_snapshot w at fault d)
  unfolding save_snapshot snapshot_saved
  save_snapshot-Sticky written d p x failed = absurd (ground arith)
  save_snapshot-Sticky (unchanged e) d p x failed = p
  save_snapshot-Sticky (replaced e) d p x failed = p

  proceed-Sticky :
      (flt : Faults) (seen : Result (Option (List B))) (d : Disk B)
      → Poisoned d
      → Sticky (proceed w at flt seen d)
  unfolding proceed replace_snapshot
  proceed-Sticky flt (err e) d p = λ x failed. p
  proceed-Sticky flt (ok previous) d p =
      after-Sticky (commit_if_changed w at flt d) (replace_snapshot w at flt previous)
        (commit_if_changed-Poisoned flt d p)
        λ e q.
          after-Sticky (save_backup w at flt.backup previous (anchor w at e))
            (save_snapshot w at flt.snapshot)
            (save_backup-Poisoned flt.backup previous (anchor w at e) q)
            (save_snapshot-Sticky flt.snapshot)

  persist-Sticky : (flt : Faults) (d : Disk B) → Sticky (persist w at flt d)
  unfolding persist
  persist-Sticky flt d x failed =
      let p = poison w at d in
      elim (Bool-cases d.memory.poisoned) [
        | inl poisoned ↦ rw (persist, poisoned) refl
        | inr sound ↦
            let goes : persist w at flt d ≡ proceed w at flt (inspect w at flt p) p =
              rw (persist, sound) refl in
            subst (λ r. Poisoned r.0) (sym goes)
              (proceed-Sticky flt (inspect w at flt p) p refl x (sym (ap (λ r. r.1) goes) ∙ failed))
      ]

  -- After a persist that failed, at whatever call, every later one writes nothing and fails.
  pub persist_poisoned :
      (flt later : Faults) (d : Disk B) (e : SchedulerError)
      → (persist w at flt d).1 ≡ err e
      → let left = (persist w at flt d).0 in
        persist w at later left ≡ (
          left,
          corrupt at.primary
              "previous persistence failure; reopen the scheduler before admitting traffic",
        )
  unfolding persist
  persist_poisoned flt later d e failed =
      let stuck = persist-Sticky flt d e failed in rw (persist, stuck) refl
