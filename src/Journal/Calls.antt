-- ===== src/Journal/Calls.antt =====
-- The calls of the coordinator of src/journal.rs, in any order, and its trees of active runs.
use netband.Base.{
  ℕ, zero, suc, length, ◌≡◌, refl, sym, subst, true, false, Bool-cases, Option-cases, inl, inr,
  Option, none, some, List, [], ◌∷◌, String, arith,
}
use netband.Dict.{Dict, get, insert}
use netband.Model.{Outcome}
use netband.Journal.{
  OutputEvent, RunKind, RunContext, ActiveRun, OutputCoordinator, Failure, Process, publish_batch,
  remove_run, has_children, is_active, is_idle, new_run, then_runs, begin_run, start_session,
  start_run_with_context, finish_known, finish_run, new_coordinator, default_context,
}
use netband.Journal.Close.{find_leaf, finish_leaves, finish_after, finish_session}
use netband.Journal.Tree.{Rooted, Adopted, insert-Rooted, remove_run-Rooted}

-- A call of the coordinator.
pub data CoordinatorCall : Type 0 where
  publish : List OutputEvent → CoordinatorCall
  session : Process → String → String → CoordinatorCall
  start : Process → String → String → RunKind → RunContext → CoordinatorCall
  finish : Process → String → Outcome → Option String → CoordinatorCall
  close : (String → Process) → String → Outcome → Option String → CoordinatorCall

module _ {J : Type 0} (append_batch : J → List OutputEvent → J × Failure) where
  pub publish_batch-runs :
      (events : List OutputEvent) (o : OutputCoordinator J)
      → (publish_batch append_batch events o).0.runs ≡ o.runs
  unfolding publish_batch
  publish_batch-runs events o = ground arith

  then_runs-Rooted :
      (f : Dict ActiveRun → Dict ActiveRun) (r : OutputCoordinator J × Failure)
      → Rooted r.0.runs
      → Rooted (f r.0.runs)
      → Rooted (then_runs append_batch f r).0.runs
  then_runs-Rooted f (o, none) before after = after
  then_runs-Rooted f (o, some error) before after = before

  published-Rooted :
      (f : Dict ActiveRun → Dict ActiveRun) (events : List OutputEvent) (o : OutputCoordinator J)
      → Rooted o.runs
      → Rooted (f o.runs)
      → Rooted (then_runs append_batch f (publish_batch append_batch events o)).0.runs
  published-Rooted f events o before after =
      let same = sym (publish_batch-runs events o) in
      then_runs-Rooted f (publish_batch append_batch events o) (subst Rooted same before)
        (subst (λ runs. Rooted (f runs)) same after)

  begin_run-Rooted :
      (p : Process) (id : String) (parent : Option String) (kind : RunKind)
      (command : Option String) (context : RunContext) (o : OutputCoordinator J)
      → Adopted parent o.runs
      → Rooted o.runs
      → Rooted (begin_run append_batch p id parent kind command context o).0.runs
  unfolding begin_run
  begin_run-Rooted p id parent kind command context o a rooted =
      elim (Option-cases (get id o.runs)) [
        | inl fresh ↦
            rw (begin_run, fresh)
              (published-Rooted (insert id (new_run p id parent kind o.runs)) _ o rooted
                (insert-Rooted p id parent kind o.runs fresh a rooted))
        | inr (run, e) ↦ rw (begin_run, e) rooted
      ]

  finish_known-Rooted :
      (p : Process) (id : String) (outcome : Outcome) (error : Option String) (r : Option ActiveRun)
      (o : OutputCoordinator J)
      → has_children id o.runs ≡ false
      → Rooted o.runs
      → Rooted (finish_known append_batch p id outcome error r o).0.runs
  unfolding finish_known
  finish_known-Rooted p id outcome error none o h rooted = rooted
  finish_known-Rooted p id outcome error (some run) o h rooted =
      published-Rooted (remove_run id) _ o rooted (remove_run-Rooted id o.runs h rooted)

  finish_run-Rooted :
      (p : Process) (id : String) (outcome : Outcome) (error : Option String)
      (o : OutputCoordinator J)
      → Rooted o.runs
      → Rooted (finish_run append_batch p id outcome error o).0.runs
  unfolding finish_run
  finish_run-Rooted p id outcome error o rooted = elim (Bool-cases (has_children id o.runs)) [
    | inl busy ↦ rw (finish_run, busy) rooted
    | inr free ↦
        rw (finish_run, free) (finish_known-Rooted p id outcome error (get id o.runs) o free rooted)
  ]

  abbrev LeavesRooted : Option (OutputCoordinator J × Failure) → Type 0
  LeavesRooted none = Unit
  LeavesRooted (some r) = Rooted r.0.runs

  finish_leaves-LeavesRooted :
      (fuel : ℕ) (p : String → Process) (id : String) (error : Option String)
      (o : OutputCoordinator J)
      → Rooted o.runs
      → LeavesRooted (finish_leaves append_batch fuel p id error o)
  unfolding finish_leaves
  finish_leaves-LeavesRooted zero p id error o rooted = tt
  finish_leaves-LeavesRooted (suc fuel) p id error o rooted =
      elim (Option-cases (find_leaf id o.runs o.runs)) [
        | inl done ↦ rw (finish_leaves, done) rooted
        | inr (child, e) ↦
            let r = finish_run append_batch (p child) child Outcome.error error o in
            let kept = finish_run-Rooted (p child) child Outcome.error error o rooted in
            elim (Option-cases r.1) [
              | inl fine ↦
                  rw (finish_leaves, e, fine) (finish_leaves-LeavesRooted fuel p id error r.0 kept)
              | inr (failure, bad) ↦ rw (finish_leaves, e, bad) kept
            ]
      ]

  finish_after-LeavesRooted :
      (p : Process) (id : String) (outcome : Outcome) (error : Option String)
      (r : Option (OutputCoordinator J × Failure))
      → LeavesRooted r
      → LeavesRooted (finish_after append_batch p id outcome error r)
  finish_after-LeavesRooted p id outcome error none rooted = tt
  finish_after-LeavesRooted p id outcome error (some (o, none)) rooted =
      finish_run-Rooted p id outcome error o rooted
  finish_after-LeavesRooted p id outcome error (some (o, some failure)) rooted = rooted

  finish_session-LeavesRooted :
      (p : String → Process) (id : String) (outcome : Outcome) (error : Option String)
      (o : OutputCoordinator J)
      → Rooted o.runs
      → LeavesRooted (finish_session append_batch p id outcome error o)
  unfolding finish_session
  finish_session-LeavesRooted p id outcome none o rooted =
      finish_run-Rooted (p id) id outcome none o rooted
  finish_session-LeavesRooted p id outcome (some error) o rooted =
      finish_after-LeavesRooted (p id) id outcome (some error) _
        (finish_leaves-LeavesRooted (suc (length o.runs)) p id (some error) o rooted)

  abbrev pub closed_or :
      OutputCoordinator J → Option (OutputCoordinator J × Failure) → OutputCoordinator J
  closed_or o none = o
  closed_or o (some r) = r.0

  closed_or-Rooted :
      (o : OutputCoordinator J) (r : Option (OutputCoordinator J × Failure))
      → Rooted o.runs
      → LeavesRooted r
      → Rooted (closed_or o r).runs
  closed_or-Rooted o none rooted l = rooted
  closed_or-Rooted o (some r) rooted l = l

  unfoldable pub apply : CoordinatorCall → OutputCoordinator J → OutputCoordinator J
  apply (CoordinatorCall.publish events) o = (publish_batch append_batch events o).0
  apply (CoordinatorCall.session p id command) o = (start_session append_batch p id command o).0
  apply (CoordinatorCall.start p id parent kind context) o =
      (start_run_with_context append_batch p id parent kind context o).0
  apply (CoordinatorCall.finish p id outcome error) o =
      (finish_run append_batch p id outcome error o).0
  apply (CoordinatorCall.close p id outcome error) o =
      closed_or o (finish_session append_batch p id outcome error o)

  apply-Rooted :
      (call : CoordinatorCall) (o : OutputCoordinator J)
      → Rooted o.runs
      → Rooted (apply call o).runs
  unfolding apply start_session start_run_with_context
  apply-Rooted (CoordinatorCall.publish events) o rooted =
      subst Rooted (sym (publish_batch-runs events o)) rooted
  apply-Rooted (CoordinatorCall.session p id command) o rooted =
      elim (Bool-cases (is_idle o.runs)) [
        | inl idle ↦
            rw (apply, start_session, idle)
              (begin_run-Rooted p id none RunKind.session (some command) default_context
                (record o { sequence = 0 }) tt rooted)
        | inr busy ↦ rw (apply, start_session, busy) rooted
      ]
  apply-Rooted (CoordinatorCall.start p id parent kind context) o rooted =
      elim (Option-cases (get parent o.runs)) [
        | inl missing ↦ rw (apply, start_run_with_context, missing) rooted
        | inr found ↦
            let active : is_active (get parent o.runs) ≡ true = rw found.1 refl in
            rw (apply, start_run_with_context, active)
              (begin_run-Rooted p id (some parent) kind none context o found rooted)
      ]
  apply-Rooted (CoordinatorCall.finish p id outcome error) o rooted =
      finish_run-Rooted p id outcome error o rooted
  apply-Rooted (CoordinatorCall.close p id outcome error) o rooted =
      closed_or-Rooted o (finish_session append_batch p id outcome error o) rooted
        (finish_session-LeavesRooted p id outcome error o rooted)

  unfoldable pub apply_all : List CoordinatorCall → OutputCoordinator J → OutputCoordinator J
  apply_all [] o = o
  apply_all (call ∷ calls) o = apply_all calls (apply call o)

  apply_all-Rooted :
      (calls : List CoordinatorCall) (o : OutputCoordinator J)
      → Rooted o.runs
      → Rooted (apply_all calls o).runs
  unfolding apply_all
  apply_all-Rooted [] o rooted = rooted
  apply_all-Rooted (call ∷ calls) o rooted =
      apply_all-Rooted calls (apply call o) (apply-Rooted call o rooted)

  -- After any calls of a new coordinator, with any failures of the journal, every active run has no
  -- parent and is its own root, or has an active parent with the same root.
  pub new_coordinator-Rooted :
      (journal : J) (calls : List CoordinatorCall)
      → Rooted (apply_all calls (new_coordinator append_batch journal)).runs
  unfolding get
  new_coordinator-Rooted journal calls =
      apply_all-Rooted calls (new_coordinator append_batch journal)
        λ id run g. absurd (ground arith)
