-- ===== src/Journal/Close.antt =====
-- src/journal.rs: `finish_session`, which after an error first ends the runs below the session.
use netband.Base.{
  ℕ, zero, suc, Bool, not, ◌&&◌, Option, none, some, List, [], ◌∷◌, String, str_eq, length,
  if◌then◌else◌,
}
use netband.Dict.{Dict}
use netband.Model.{Outcome}
use netband.Journal.{
  OutputEvent, ActiveRun, OutputCoordinator, Failure, Process, has_children, finish_run,
}

abbrev pub is_leaf : String → String → ActiveRun → Dict ActiveRun → Bool
is_leaf id child run runs =
    not (str_eq child id) && str_eq run.root id && not (has_children child runs)

-- `find_map` of `finish_session`, over the entries of `runs`.
unfoldable pub find_leaf : String → Dict ActiveRun → Dict ActiveRun → Option String
find_leaf id runs [] = none
find_leaf id runs ((child, run) ∷ rest) =
    if is_leaf id child run runs then some child else find_leaf id runs rest

module _ {J : Type 0} (append_batch : J → List OutputEvent → J × Failure) where
  -- `finish_session`, with `none` where the fuel runs out. The readings are functions of the run.
  unfoldable pub finish_leaves :
      ℕ
      → (String → Process)
      → String
      → Option String
      → OutputCoordinator J
      → Option (OutputCoordinator J × Failure)
  finish_leaves zero p id error o = none
  finish_leaves (suc fuel) p id error o = elim (find_leaf id o.runs o.runs) [
    | none ↦ some (o, none)
    | some child ↦
        let r = finish_run append_batch (p child) child Outcome.error error o in
        elim r.1 [
          | none ↦ finish_leaves fuel p id error r.0
          | some failure ↦ some (r.0, some failure)
        ]
  ]

  abbrev pub finish_after :
      Process
      → String
      → Outcome
      → Option String
      → Option (OutputCoordinator J × Failure)
      → Option (OutputCoordinator J × Failure)
  finish_after p id outcome error none = none
  finish_after p id outcome error (some (o, none)) =
      some (finish_run append_batch p id outcome error o)
  finish_after p id outcome error (some (o, some failure)) = some (o, some failure)

  unfoldable pub finish_session :
      (String → Process)
      → String
      → Outcome
      → Option String
      → OutputCoordinator J
      → Option (OutputCoordinator J × Failure)
  finish_session p id outcome none o = some (finish_run append_batch (p id) id outcome none o)
  finish_session p id outcome (some error) o =
      finish_after (p id) id outcome (some error)
        (finish_leaves (suc (length o.runs)) p id (some error) o)
