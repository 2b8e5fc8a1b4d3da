-- ===== src/Scheduler/Persistence/Commit/Outcome.antt =====
-- What a `persist` of src/scheduler/persistence.rs leaves, by its result.
use netband.Base.{
  ◌+◌, ◌≡◌, refl, sym, ap, subst, ◌∙◌, false, Bool-cases, inl, inr, Option, none, some, List, [],
  ◌∷◌, ◌++◌, arith, leb, length,
}
use netband.Scheduler.Store.{Result, ok, err}
use netband.Scheduler.Persistence.Format.{Checkpoint, Format, IsFormat, validate_store, new_record}
use netband.Scheduler.Persistence.Account.{accounting, accounting_eq}
use netband.Scheduler.Persistence.Account.Laws.{accounting_eq-true}
use netband.Scheduler.Persistence.Log.{last_checkpoint, push, read_record, read_log}
use netband.Scheduler.Persistence.Log.Laws.{read_log-append, read_record-new_record, last_or-append}
use netband.Scheduler.Persistence.Commit.{
  Paths, Disk, Faults, Append, appended, torn, after, inspect, append_line, save_marker,
  next_record, next_checkpoint, committed_to, commit_record, commit_if_changed, replace_snapshot,
  proceed, poison, persist, u64_last,
}
use netband.Scheduler.Persistence.Commit.Laws.{Keeps, after-ok, replace_snapshot-Keeps}
use netband.Scheduler.Persistence.Commit.Extension.{Tracks}

-- `e` has committed the accounting of the store of `d`, and its log says so.
pub record Committed {B : Type 0} (w : Format B) (at : Paths) (d e : Disk B) : Type 0 where
  pub tracks : Tracks w at e
  pub account : accounting e.memory.committed.providers ≡ accounting d.store.providers
  pub providers : e.store.providers ≡ d.store.providers

module _ {B : Type 0} (w : Format B) (at : Paths) where
  append_line-ok :
      (fault : Append) (line : List B) (d : Disk B) (bytes : List B)
      → d.files.ledger ≡ some bytes
      → (append_line w at fault line d).1 ≡ ok tt
      → (append_line w at fault line d).0.files.ledger ≡ some (bytes ++ line)
  unfolding append_line
  append_line-ok appended line d bytes h done = rw h refl
  append_line-ok (torn n e) line d bytes h done = absurd (ground (arith, h))

  Committed-Keeps : (d e f : Disk B) → Committed w at d e → Keeps e f → Committed w at d f
  Committed-Keeps d e f c k = record {
    tracks = record {
      bytes = c.tracks.bytes;
      log = c.tracks.log;
      ledger = k.ledger ∙ c.tracks.ledger;
      read = c.tracks.read;
      checkpoint = c.tracks.checkpoint ∙ sym k.checkpoint;
      committed = c.tracks.committed ∙ sym k.committed;
      schema = k.schema ∙ c.tracks.schema;
    };
    account = ap (λ s. accounting s.providers) k.committed ∙ c.account;
    providers = k.providers ∙ c.providers;
  }

  -- The log reads to the record that was appended to it.
  read_log-next_record :
      (laws : IsFormat w) (d : Disk B) (t : Tracks w at d)
      → validate_store at.ledger d.store ≡ ok tt
      → let r = next_record w at d in
        read_log w at.ledger (t.bytes ++ (w.record_json r ++ w.newline ∷ []))
        ≡ ok (push w at.ledger t.log r)
  unfolding validate_store
  read_log-next_record laws d t valid =
      let r = next_record w at d in
      let state = record d.store { checkpoint = none } in
      let read = read_record-new_record w at.ledger laws t.log state valid t.schema refl in
      let same : new_record w ((last_checkpoint t.log).sequence + 1) (last_checkpoint t.log).digest
            state
          ≡ r =
        ap (λ k. new_record w (k.sequence + 1) k.digest state) t.checkpoint in
      read_log-append w at.ledger laws t.bytes (w.record_json r) t.log t.read (laws.record_line r)
      ∙ subst (λ r. read_record w at.ledger t.log (w.record_json r) ≡ ok (push w at.ledger t.log r))
          same read

  pub commit_record-chain :
      (flt : Faults) (d : Disk B)
      → leb u64_last d.memory.checkpoint.sequence ≡ false
      → let r = next_record w at d in
        let line = w.record_json r ++ w.newline ∷ [] in
        commit_record w at flt d
        ≡ after (append_line w at flt.ledger line d) λ e.
          after
            (save_marker w at flt.marker (next_checkpoint w at d) e)
            (committed_to w at (next_checkpoint w at d) r.state (length line))
  unfolding commit_record new_record
  commit_record-chain flt d room = rw (commit_record, room) refl

  finish-Committed :
      (laws : IsFormat w) (flt : Faults) (d : Disk B) (t : Tracks w at d)
      → validate_store at.ledger d.store ≡ ok tt
      → let r = next_record w at d in
        let line = w.record_json r ++ w.newline ∷ [] in
        let first = append_line w at flt.ledger line d in
        let second = save_marker w at flt.marker (next_checkpoint w at d) first.0 in
        first.1 ≡ ok tt
        → Committed w at d
            (committed_to w at (next_checkpoint w at d) r.state (length line) second.0).0
  unfolding committed_to save_marker append_line new_record
  finish-Committed laws flt d t valid done =
      let r = next_record w at d in
      let line = w.record_json r ++ w.newline ∷ [] in
      record {
        tracks = record {
          bytes = t.bytes ++ line;
          log = push w at.ledger t.log r;
          ledger = append_line-ok flt.ledger line d t.bytes t.ledger done;
          read = read_log-next_record laws d t valid;
          checkpoint =
              last_or-append _ t.log.later _
              ∙ ap {A = Checkpoint} {B = Checkpoint}
                  (λ k. record k { sequence = r.sequence; digest = r.digest }) t.checkpoint;
          committed = last_or-append _ t.log.states r.state;
          schema = t.schema;
        };
        account = refl;
        providers = refl;
      }

  commit_record-Committed :
      (laws : IsFormat w) (flt : Faults) (d : Disk B)
      → Tracks w at d
      → validate_store at.ledger d.store ≡ ok tt
      → (commit_record w at flt d).1 ≡ ok tt
      → Committed w at d (commit_record w at flt d).0
  unfolding commit_record
  commit_record-Committed laws flt d t valid done =
      let k = next_checkpoint w at d in
      let r = next_record w at d in
      let line = w.record_json r ++ w.newline ∷ [] in
      let first = append_line w at flt.ledger line d in
      let finish = committed_to w at k r.state (length line) in
      elim (Bool-cases (leb u64_last d.memory.checkpoint.sequence)) [
        | inl full ↦ absurd (ground (arith, done))
        | inr room ↦
            let in_order = commit_record-chain flt d room in
            let one =
              after-ok first (λ e. after (save_marker w at flt.marker k e) finish)
                (sym (ap (λ p. p.1) in_order) ∙ done) in
            let two = after-ok (save_marker w at flt.marker k first.0) finish one.1 in
            subst (λ p. Committed w at d p.0) (sym (in_order ∙ (one.2 ∙ two.2)))
              (finish-Committed laws flt d t valid one.0)
      ]

  commit_if_changed-Committed :
      (laws : IsFormat w) (flt : Faults) (d : Disk B)
      → Tracks w at d
      → validate_store at.ledger d.store ≡ ok tt
      → (commit_if_changed w at flt d).1 ≡ ok tt
      → Committed w at d (commit_if_changed w at flt d).0
  unfolding commit_if_changed
  commit_if_changed-Committed laws flt d t valid done =
      let now = accounting d.store.providers in
      let before = accounting d.memory.committed.providers in
      elim (Bool-cases (accounting_eq now before)) [
        | inl same ↦
            let stays : commit_if_changed w at flt d ≡ (d, ok tt) =
              rw (commit_if_changed, same) refl in
            subst (λ p. Committed w at d p.0) (sym stays)
              (record {
                tracks = t;
                account = sym (accounting_eq-true now before same);
                providers = refl;
              })
        | inr changed ↦
            let commits : commit_if_changed w at flt d ≡ commit_record w at flt d =
              rw (commit_if_changed, changed) refl in
            subst (λ p. Committed w at d p.0) (sym commits)
              (commit_record-Committed laws flt d t valid (sym (ap (λ p. p.1) commits) ∙ done))
      ]

  inspect-ok :
      (flt : Faults) (d : Disk B) (previous : Option (List B))
      → inspect w at flt d ≡ ok previous
      → validate_store at.ledger d.store ≡ ok tt
  unfolding inspect validate_store
  inspect-ok flt d previous h = ground arith

  proceed-Committed :
      (laws : IsFormat w) (flt : Faults) (seen : Result (Option (List B))) (d : Disk B)
      → Tracks w at d
      → inspect w at flt d ≡ seen
      → (proceed w at flt seen d).1 ≡ ok tt
      → Committed w at d (proceed w at flt seen d).0
  unfolding proceed
  proceed-Committed laws flt (err e) d t look done = absurd (ground arith)
  proceed-Committed laws flt (ok previous) d t look done =
      let valid = inspect-ok flt d previous look in
      let step =
        after-ok (commit_if_changed w at flt d) (replace_snapshot w at flt previous) done in
      let e = (commit_if_changed w at flt d).0 in
      subst (λ p. Committed w at d p.0) (sym step.2)
        (Committed-Keeps d e (replace_snapshot w at flt previous e).0
          (commit_if_changed-Committed laws flt d t valid step.0)
          (replace_snapshot-Keeps w at flt previous e))

  -- A persist that succeeds leaves the accounting of the store as the last record of the log, and
  -- memory and log in agreement.
  pub persist-Committed :
      (laws : IsFormat w) (flt : Faults) (d : Disk B)
      → Tracks w at d
      → (persist w at flt d).1 ≡ ok tt
      → Committed w at d (persist w at flt d).0
  unfolding persist
  persist-Committed laws flt d t done =
      let p = poison w at d in
      elim (Bool-cases d.memory.poisoned) [
        | inl poisoned ↦ absurd (ground (arith, done))
        | inr sound ↦
            let goes : persist w at flt d ≡ proceed w at flt (inspect w at flt p) p =
              rw (persist, sound) refl in
            let tp : Tracks w at p = record {
              bytes = t.bytes;
              log = t.log;
              ledger = t.ledger;
              read = t.read;
              checkpoint = t.checkpoint;
              committed = t.committed;
              schema = t.schema;
            } in
            let c =
              proceed-Committed laws flt (inspect w at flt p) p tp refl
                (sym (ap (λ q. q.1) goes) ∙ done) in
            subst (λ q. Committed w at d q.0) (sym goes)
              (record { tracks = c.tracks; account = c.account; providers = c.providers })
      ]
