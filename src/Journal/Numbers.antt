-- ===== src/Journal/Numbers.antt =====
-- The numbers that the coordinator of src/journal.rs gives to events.
use netband.Base.{
  ℕ, ◌+◌, ◌≡◌, refl, subst, Bool-cases, inl, inr, Option, none, some, Option-cases, List, [], ◌∷◌,
  ◌++◌, String, arith, leb, length,
}
use netband.Dict.{Dict, get}
use netband.Journal.{
  OutputEvent, ActiveRun, OutputCoordinator, Failure, number, in_run, publish_batch, u64_limit,
}

-- Where an event stands in the tree of runs: in the active run that it names, if there is one.
abbrev pub Placed : Option ActiveRun → OutputEvent → OutputEvent → Type 0
Placed none e out =
    (out.parent_run_id ≡ e.parent_run_id)
    × (out.root_run_id ≡ e.root_run_id)
    × (out.run_kind ≡ e.run_kind)
Placed (some run) e out =
    (out.parent_run_id ≡ run.parent) × (out.root_run_id ≡ run.root) × (out.run_kind ≡ run.kind)

-- `out` is the event `e` with a number and its place.
pub record IsNumbered (run : Option ActiveRun) (n : ℕ) (e out : OutputEvent) : Type 0 where
  pub sequence : out.event_sequence ≡ some n
  pub placed : Placed run e out
  pub body : out.body ≡ e.body
  pub times : (out.started_at_utc ≡ e.started_at_utc) × (out.elapsed_ms ≡ e.elapsed_ms)
  pub command :
      (out.command ≡ e.command)
      × (out.netband_version ≡ e.netband_version)
      × (out.process_id ≡ e.process_id)
  pub load : (out.load_run_id ≡ e.load_run_id) × (out.load_phase ≡ e.load_phase)

-- The events one by one, numbered from `s + 1` on.
abbrev pub Consecutive : Dict ActiveRun → ℕ → List OutputEvent → List OutputEvent → Type 0
Consecutive runs s [] [] = Unit
Consecutive runs s [] (x ∷ out) = ⊥
Consecutive runs s (e ∷ es) [] = ⊥
Consecutive runs s (e ∷ es) (x ∷ out) =
    IsNumbered (get e.body.run_id runs) (s + 1) e x × Consecutive runs (s + 1) es out

abbrev numbered : Dict ActiveRun → ℕ → OutputEvent → OutputEvent
numbered runs n e = in_run (get e.body.run_id runs) (record e { event_sequence = some n })

in_run-IsNumbered :
    (run : Option ActiveRun) (n : ℕ) (e : OutputEvent)
    → IsNumbered run n e (in_run run (record e { event_sequence = some n }))
in_run-IsNumbered none n e = record {
  sequence = refl;
  placed = (refl, refl, refl);
  body = refl;
  times = (refl, refl);
  command = (refl, refl, refl);
  load = (refl, refl);
}
in_run-IsNumbered (some active) n e = record {
  sequence = refl;
  placed = (refl, refl, refl);
  body = refl;
  times = (refl, refl);
  command = (refl, refl, refl);
  load = (refl, refl);
}

number-Consecutive :
    (runs : Dict ActiveRun) (s : ℕ) (es out : List OutputEvent)
    → (number runs s es).1 ≡ some out
    → Consecutive runs s es out × ((number runs s es).0 ≡ s + length es)
unfolding number
number-Consecutive runs s [] [] h = (tt, ground arith)
number-Consecutive runs s [] (x ∷ out) h = absurd (ground arith)
number-Consecutive runs s (e ∷ es) out h = elim (Bool-cases (leb u64_limit s)) [
  | inl full ↦ absurd (ground arith)
  | inr room ↦ elim (Option-cases (number runs (s + 1) es).1) [
    | inl stops ↦ absurd (ground arith)
    | inr (rest, e_rest) ↦
        let later = number-Consecutive runs (s + 1) es rest e_rest in
        let whole : numbered runs (s + 1) e ∷ rest ≡ out = ground arith in
        (
          subst (Consecutive runs s (e ∷ es)) whole
              (in_run-IsNumbered (get e.body.run_id runs) (s + 1) e, later.0),
          ground (arith, later.1),
        )
  ]
]

module _ {J : Type 0} (append_batch : J → List OutputEvent → J × Failure) where
  -- The journal and the console get the same batch, which is that of the given events, numbered on
  -- from the sequence.
  pub record Published (events : List OutputEvent) (o next : OutputCoordinator J) : Type 0 where
    pub batch : List OutputEvent
    pub written : append_batch o.journal batch ≡ (next.journal, none)
    pub console : next.console ≡ o.console ++ batch
    pub numbered : Consecutive o.runs o.sequence events batch
    pub sequence : next.sequence ≡ o.sequence + length events

  -- Events whose publication succeeds reach the journal and the console as one batch, in their order:
  -- each with its body, times, command and load as they were, numbered on from the sequence without a
  -- gap, and placed in the tree by the active run that it names. The sequence has then counted them.
  pub publish_batch-Published :
      (events : List OutputEvent) (o : OutputCoordinator J)
      → (publish_batch append_batch events o).1 ≡ none
      → Published events o (publish_batch append_batch events o).0
  unfolding publish_batch
  publish_batch-Published events o h = elim (Option-cases (number o.runs o.sequence events).1) [
    | inl exhausted ↦ absurd (ground arith)
    | inr (batch, e) ↦
        let n = number-Consecutive o.runs o.sequence events batch e in
        record {
          batch = batch;
          written = ground arith;
          console = ground arith;
          numbered = n.0;
          sequence = ground (arith, n.1);
        }
  ]

  -- After an append that failed, every later batch is refused and changes nothing.
  pub publish_batch_failed :
      (events later : List OutputEvent) (o : OutputCoordinator J) (batch : List OutputEvent)
      (error : String)
      → (number o.runs o.sequence events).1 ≡ some batch
      → (append_batch o.journal batch).1 ≡ some error
      → let next = (publish_batch append_batch events o).0 in
        publish_batch append_batch later next ≡ (next, some "journal publication previously failed")
  unfolding publish_batch
  publish_batch_failed events later o batch error e f = ground (arith, e, f)
