-- ===== src/Journal/Ending.antt =====
-- The loop of `finish_session` of src/journal.rs and its end.
use netband.Base.{
  ℕ, zero, suc, ◌+◌, ◌≤◌, ◌≡◌, ◌⊎◌, refl, sym, ap, subst, ◌∙◌, Bool-cases, Option-cases, inl, inr,
  Option, none, some, List, [], ◌∷◌, String, arith, length,
}
use netband.Dict.{Dict, get}
use netband.Model.{Outcome}
use netband.Journal.{
  OutputEvent, ActiveRun, OutputCoordinator, Failure, Process, publish_batch, remove_run,
  has_children, then_runs, finish_known, finish_run, finished_event,
}
use netband.Journal.Close.{find_leaf, finish_after, finish_leaves, finish_session}
use netband.Journal.Calls.{publish_batch-runs}

length-remove_run_le :
    (id : String) (runs : Dict ActiveRun) → length (remove_run id runs) ≤ length runs
unfolding remove_run
length-remove_run_le id [] = ground arith
length-remove_run_le id ((j, r) ∷ runs) = ground (arith, length-remove_run_le id runs)

length-remove_run :
    (id : String) (runs : Dict ActiveRun) (run : ActiveRun)
    → get id runs ≡ some run
    → length (remove_run id runs) + 1 ≤ length runs
unfolding get remove_run
length-remove_run id [] run h = absurd (ground arith)
length-remove_run id ((j, r) ∷ runs) run h =
    ground (arith, length-remove_run_le id runs, length-remove_run id runs run)

get-remove_run_same : (id : String) (runs : Dict ActiveRun) → get id (remove_run id runs) ≡ none
unfolding get remove_run
get-remove_run_same id [] = refl
get-remove_run_same id ((j, r) ∷ runs) = ground (arith, get-remove_run_same id runs)

module _ {J : Type 0} (append_batch : J → List OutputEvent → J × Failure) where
  then_runs-ok :
      (f : Dict ActiveRun → Dict ActiveRun) (r : OutputCoordinator J × Failure)
      → (then_runs append_batch f r).1 ≡ none
      → (then_runs append_batch f r).0.runs ≡ f r.0.runs
  then_runs-ok f (o, none) h = refl
  then_runs-ok f (o, some error) h = absurd (ground arith)

  finish_known-ok :
      (p : Process) (id : String) (outcome : Outcome) (error : Option String) (r : Option ActiveRun)
      (o : OutputCoordinator J)
      → get id o.runs ≡ r
      → (finish_known append_batch p id outcome error r o).1 ≡ none
      → length (finish_known append_batch p id outcome error r o).0.runs + 1 ≤ length o.runs
  unfolding finish_known
  finish_known-ok p id outcome error none o e h = absurd (ground arith)
  finish_known-ok p id outcome error (some run) o e h =
      let events = finished_event p id outcome error run ∷ [] in
      let fewer =
        then_runs-ok (remove_run id) (publish_batch append_batch events o) h
        ∙ ap (λ runs. remove_run id runs) (publish_batch-runs append_batch events o) in
      subst (λ runs. length runs + 1 ≤ length o.runs) (sym fewer)
        (length-remove_run id o.runs run e)

  finish_run-ok :
      (p : Process) (id : String) (outcome : Outcome) (error : Option String)
      (o : OutputCoordinator J)
      → (finish_run append_batch p id outcome error o).1 ≡ none
      → length (finish_run append_batch p id outcome error o).0.runs + 1 ≤ length o.runs
  unfolding finish_run
  finish_run-ok p id outcome error o h = elim (Bool-cases (has_children id o.runs)) [
    | inl busy ↦ absurd (ground (arith, h))
    | inr free ↦
        let goes : finish_run append_batch p id outcome error o
            ≡ finish_known append_batch p id outcome error (get id o.runs) o =
          rw (finish_run, free) refl in
        subst (λ r. length r.0.runs + 1 ≤ length o.runs) (sym goes)
          (finish_known-ok p id outcome error (get id o.runs) o refl (sym (ap (λ r. r.1) goes) ∙ h))
  ]

  -- What the loop ends with: an error of the coordinator, or no leaf below the session.
  abbrev pub Stops : String → Option (OutputCoordinator J × Failure) → Type 0
  Stops id o =
      (r : OutputCoordinator J × Failure) × (o ≡ some r)
      × (r.1 ≡ none → find_leaf id r.0.runs r.0.runs ≡ none)

  finish_leaves-Stops :
      (fuel : ℕ) (p : String → Process) (id : String) (error : Option String)
      (o : OutputCoordinator J)
      → length o.runs + 1 ≤ fuel
      → Stops id (finish_leaves append_batch fuel p id error o)
  unfolding finish_leaves
  finish_leaves-Stops zero p id error o enough = absurd (ground arith)
  finish_leaves-Stops (suc fuel) p id error o enough =
      elim (Option-cases (find_leaf id o.runs o.runs)) [
        | inl done ↦ ((o, none), rw (finish_leaves, done) refl, λ h. done)
        | inr (child, e) ↦
            let r = finish_run append_batch (p child) child Outcome.error error o in
            elim (Option-cases r.1) [
              | inl fine ↦
                  let fewer = finish_run-ok (p child) child Outcome.error error o fine in
                  let rest =
                    finish_leaves-Stops fuel p id error r.0 (ground (arith, fewer, enough)) in
                  (rest.0, rw (finish_leaves, e, fine) rest.1, rest.2)
              | inr (failure, bad) ↦
                  ((r.0, some failure), rw (finish_leaves, e, bad) refl, λ h. absurd (ground arith))
            ]
      ]

  -- The run is closed, or the call failed.
  abbrev pub Closes : String → OutputCoordinator J × Failure → Type 0
  Closes id r = (get id r.0.runs ≡ none) ⊎ ((failure : String) × (r.1 ≡ some failure))

  finish_known-Closes :
      (p : Process) (id : String) (outcome : Outcome) (error : Option String)
      (run : Option ActiveRun) (o : OutputCoordinator J)
      → Closes id (finish_known append_batch p id outcome error run o)
  unfolding finish_known
  finish_known-Closes p id outcome error none o = inr (_, refl)
  finish_known-Closes p id outcome error (some run) o =
      let events = finished_event p id outcome error run ∷ [] in
      let r = then_runs append_batch (remove_run id) (publish_batch append_batch events o) in
      elim (Option-cases r.1) [
        | inl fine ↦ inl (
            ap (λ runs. get id runs)
              (then_runs-ok (remove_run id) (publish_batch append_batch events o) fine)
            ∙ get-remove_run_same id (publish_batch append_batch events o).0.runs)
        | inr failure ↦ inr failure
      ]

  finish_run-Closes :
      (p : Process) (id : String) (outcome : Outcome) (error : Option String)
      (o : OutputCoordinator J)
      → Closes id (finish_run append_batch p id outcome error o)
  unfolding finish_run
  finish_run-Closes p id outcome error o = elim (Bool-cases (has_children id o.runs)) [
    | inl busy ↦ rw (finish_run, busy) (inr ("run has active children", refl))
    | inr free ↦ rw (finish_run, free) (finish_known-Closes p id outcome error (get id o.runs) o)
  ]

  finish_after-Closes :
      (p : Process) (id : String) (outcome : Outcome) (error : Option String)
      (r : OutputCoordinator J × Failure)
      → (q : OutputCoordinator J × Failure) × (finish_after append_batch p id outcome error (some r)
          ≡ some q)
        × Closes id q
  finish_after-Closes p id outcome error (o, none) =
      (finish_run append_batch p id outcome error o, refl, finish_run-Closes p id outcome error o)
  finish_after-Closes p id outcome error (o, some failure) =
      ((o, some failure), refl, inr (failure, refl))

  -- The end of a session comes for every coordinator, session and journal: the loop that ends the
  -- runs below it after an error has enough fuel. The session's run is not active any more, or the
  -- call has failed.
  pub finish_session-Closes :
      (p : String → Process) (id : String) (outcome : Outcome) (error : Option String)
      (o : OutputCoordinator J)
      → (r : OutputCoordinator J × Failure) × (finish_session append_batch p id outcome error o
          ≡ some r)
        × Closes id r
  unfolding finish_session
  finish_session-Closes p id outcome none o = (
    finish_run append_batch (p id) id outcome none o,
    refl,
    finish_run-Closes (p id) id outcome none o,
  )
  finish_session-Closes p id outcome (some error) o =
      let loop = finish_leaves-Stops (suc (length o.runs)) p id (some error) o (ground arith) in
      let q = finish_after-Closes (p id) id outcome (some error) loop.0 in
      (q.0, ap (λ l. finish_after append_batch (p id) id outcome (some error) l) loop.1 ∙ q.1, q.2)
