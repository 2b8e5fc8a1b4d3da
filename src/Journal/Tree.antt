-- ===== src/Journal/Tree.antt =====
-- The trees of active runs of the coordinator of src/journal.rs.
use netband.Base.{
  ◌≡◌, refl, subst, false, Bool-cases, inl, inr, Option, none, some, [], ◌∷◌, String, str_eq,
  str_eq_iff, arith, if◌then◌else◌,
}
use netband.Dict.{Dict, get, insert, get-insert}
use netband.Journal.{RunKind, ActiveRun, Process, remove_run, has_children, new_run}

-- A run without a parent is its own root; a run with one has an active parent with the same root.
abbrev pub Branch : Dict ActiveRun → String → ActiveRun → Option String → Type 0
Branch runs id run none = run.root ≡ id
Branch runs id run (some parent) =
    (p : ActiveRun) × (get parent runs ≡ some p) × (run.root ≡ p.root)

abbrev pub Rooted : Dict ActiveRun → Type 0
Rooted runs =
    (id : String) (run : ActiveRun) → get id runs ≡ some run → Branch runs id run run.parent

get-remove_run :
    (id j : String) (runs : Dict ActiveRun)
    → get j (remove_run id runs) ≡ (if str_eq id j then none else get j runs)
unfolding get remove_run
get-remove_run id j [] = ground arith
get-remove_run id j ((i, run) ∷ runs) =
    ground (arith, str_eq_iff i id, str_eq_iff i j, str_eq_iff id j, get-remove_run id j runs)

has_children-false :
    (id j parent : String) (runs : Dict ActiveRun) (run : ActiveRun)
    → has_children id runs ≡ false
    → get j runs ≡ some run
    → run.parent ≡ some parent
    → str_eq id parent ≡ false
unfolding get has_children
has_children-false id j parent [] run h g e = absurd (ground arith)
has_children-false id j parent ((i, r) ∷ runs) run h g e =
    ground
      (arith, str_eq_iff id parent, str_eq_iff parent id, has_children-false id j parent runs run)

Branch-remove_run :
    (id j : String) (runs : Dict ActiveRun) (run : ActiveRun) (o : Option String)
    → run.parent ≡ o
    → has_children id runs ≡ false
    → get j runs ≡ some run
    → Branch runs j run o
    → Branch (remove_run id runs) j run o
Branch-remove_run id j runs run none e h g b = b
Branch-remove_run id j runs run (some parent) e h g b =
    let other = has_children-false id j parent runs run h g e in
    (b.0, ground (arith, other, b.1, get-remove_run id parent runs), b.2)

pub remove_run-Rooted :
    (id : String) (runs : Dict ActiveRun)
    → has_children id runs ≡ false
    → Rooted runs
    → Rooted (remove_run id runs)
remove_run-Rooted id runs h rooted j run g =
    let old : get j runs ≡ some run = ground (arith, g, get-remove_run id j runs) in
    Branch-remove_run id j runs run run.parent refl h old (rooted j run old)

Branch-insert :
    (id j : String) (new run : ActiveRun) (runs : Dict ActiveRun) (o : Option String)
    → get id runs ≡ none
    → Branch runs j run o
    → Branch (insert id new runs) j run o
Branch-insert id j new run runs none fresh b = b
Branch-insert id j new run runs (some parent) fresh b =
    (b.0, ground (arith, b.1, fresh, str_eq_iff id parent, get-insert id parent new runs), b.2)

-- The parent of a run that begins, if it has one, is active.
abbrev pub Adopted : Option String → Dict ActiveRun → Type 0
Adopted none runs = Unit
Adopted (some parent) runs = (p : ActiveRun) × (get parent runs ≡ some p)

new_run-Branch :
    (p : Process) (id : String) (parent : Option String) (kind : RunKind) (runs : Dict ActiveRun)
    → Adopted parent runs
    → Branch runs id (new_run p id parent kind runs) parent
new_run-Branch p id none kind runs a = refl
new_run-Branch p id (some parent) kind runs a = (a.0, a.1, ground (arith, a.1))

pub insert-Rooted :
    (p : Process) (id : String) (parent : Option String) (kind : RunKind) (runs : Dict ActiveRun)
    → get id runs ≡ none
    → Adopted parent runs
    → Rooted runs
    → Rooted (insert id (new_run p id parent kind runs) runs)
insert-Rooted p id parent kind runs fresh a rooted j run g =
    let new = new_run p id parent kind runs in
    let found = get-insert id j new runs in
    elim (Bool-cases (str_eq id j)) [
      | inl same ↦
          let here : new ≡ run = ground (arith, g, found) in
          let there : id ≡ j = ground (arith, str_eq_iff id j) in
          subst (λ k. Branch (insert id new runs) k run run.parent) there
            (subst (λ r. Branch (insert id new runs) id r r.parent) here
              (Branch-insert id id new new runs parent fresh
                (new_run-Branch p id parent kind runs a)))
      | inr other ↦
          Branch-insert id j new run runs run.parent fresh (rooted j run (ground (arith, g, found)))
    ]
