-- ===== src/Scheduler/Persistence/Account/Laws.antt =====
-- The comparison of accountings and their replay, of src/scheduler/persistence.rs.
use netband.Base.{
  ℕ, ◌≡◌, refl, subst, true, Bool-cases, inl, inr, Option, none, some, List, [], ◌∷◌, String, arith,
  str_eq, str_eq_iff,
}
use netband.Chrono.{Instant}
use netband.Dict.{Dict, get, insert, get-insert}
use netband.Model.{TriggerReason}
use netband.Scheduler.Types.{ProviderState, DeferredOpportunity}
use netband.Scheduler.Store.{Providers}
use netband.Scheduler.Persistence.Account.{
  Accounting, account, accounting, list_eq, time_eq, name_eq, reason_code, deferred_eq, account_eq,
  accounting_eq, replay_accounting, replay_entry, replay,
}

list_eq-true : (xs ys : List ℕ) → list_eq xs ys ≡ true → xs ≡ ys
list_eq-true [] [] h = refl
list_eq-true [] (y ∷ ys) h = absurd (ground arith)
list_eq-true (x ∷ xs) [] h = absurd (ground arith)
list_eq-true (x ∷ xs) (y ∷ ys) h = ground (arith, list_eq-true xs ys)

time_eq-true : (s t : Option Instant) → time_eq s t ≡ true → s ≡ t
time_eq-true s t h = ground arith

name_eq-true : (s t : Option String) → name_eq s t ≡ true → s ≡ t
name_eq-true none none h = refl
name_eq-true none (some t) h = absurd (ground arith)
name_eq-true (some s) none h = absurd (ground arith)
name_eq-true (some s) (some t) h = ground (arith, str_eq_iff s t)

reason_code_inj : (a b : TriggerReason) → reason_code a ≡ reason_code b → a ≡ b
reason_code_inj a b h = ground arith

deferred_eq-true : (d e : Option DeferredOpportunity) → deferred_eq d e ≡ true → d ≡ e
deferred_eq-true none none h = refl
deferred_eq-true none (some e) h = absurd (ground arith)
deferred_eq-true (some d) none h = absurd (ground arith)
deferred_eq-true (some d) (some e) h = ground (
  arith,
  time_eq-true d.scheduled_at_utc e.scheduled_at_utc,
  name_eq-true d.interface e.interface,
  reason_code_inj d.reason e.reason,
)

account_eq-true : (a b : Accounting) → account_eq a b ≡ true → a ≡ b
account_eq-true a b h = ground (
  arith,
  list_eq-true a.runs b.runs,
  time_eq-true a.last_start b.last_start,
  time_eq-true a.cooldown b.cooldown,
  deferred_eq-true a.deferred b.deferred,
)

pub accounting_eq-true : (d e : Dict Accounting) → accounting_eq d e ≡ true → d ≡ e
unfolding accounting_eq
accounting_eq-true [] [] h = refl
accounting_eq-true [] (y ∷ ys) h = absurd (ground arith)
accounting_eq-true (x ∷ xs) [] h = absurd (ground arith)
accounting_eq-true ((i, a) ∷ ds) ((j, b) ∷ es) h =
    ground (arith, str_eq_iff i j, account_eq-true a b, accounting_eq-true ds es)

account-replay_entry :
    (o : Option ProviderState) (recorded : ProviderState)
    → account (replay_entry o recorded) ≡ account recorded
unfolding replay_accounting
account-replay_entry none recorded = refl
account-replay_entry (some a) recorded = refl

-- No two entries have one key, as in a `BTreeMap`.
abbrev pub Distinct : Providers → Type 0
Distinct [] = Unit
Distinct ((id, a) ∷ rest) = (get id rest ≡ none) × Distinct rest

-- `loaded` has an entry for `id` with the accounting of `a`.
abbrev pub HasAccount : String → ProviderState → Providers → Type 0
HasAccount id a loaded = (b : ProviderState) × (get id loaded ≡ some b) × (account b ≡ account a)

get-replay-none :
    (id : String) (es store : Providers)
    → get id es ≡ none
    → get id (replay es store) ≡ get id store
unfolding get replay
get-replay-none id [] store h = refl
get-replay-none id ((j, a) ∷ es) store h =
    let entry = replay_entry (get j store) a in
    ground (arith, get-replay-none id es (insert j entry store), get-insert j id entry store)

-- A replay gives every provider of the record its accounting.
pub replay-HasAccount :
    (id : String) (a : ProviderState) (es store : Providers)
    → Distinct es
    → get id es ≡ some a
    → HasAccount id a (replay es store)
unfolding get replay
replay-HasAccount id a [] store d h = absurd (ground arith)
replay-HasAccount id a ((j, r) ∷ es) store d h =
    let entry = replay_entry (get j store) r in
    elim (Bool-cases (str_eq j id)) [
      | inl same ↦ (
        entry,
        ground (
          arith,
          str_eq_iff j id,
          get-replay-none id es (insert j entry store),
          get-insert j id entry store,
          d,
        ),
        ground (arith, account-replay_entry (get j store) r),
      )
      | inr other ↦ replay-HasAccount id a es (insert j entry store) d.1 (ground arith)
    ]

-- Equal accountings have equal entries.
pub accounting-HasAccount :
    (id : String) (a : ProviderState) (es loaded : Providers)
    → accounting es ≡ accounting loaded
    → get id es ≡ some a
    → HasAccount id a loaded
unfolding get
accounting-HasAccount id a [] loaded e h = absurd (ground arith)
accounting-HasAccount id a ((i, r) ∷ es) [] e h = absurd (ground arith)
accounting-HasAccount id a ((i, r) ∷ es) ((j, s) ∷ loaded) e h = elim (Bool-cases (str_eq i id)) [
  | inl same ↦ (s, ground arith, ground arith)
  | inr other ↦
      let rest = accounting-HasAccount id a es loaded (ground arith) (ground arith) in
      (rest.0, ground (arith, rest.1), rest.2)
]

get-accounting-none :
    (id : String) (es loaded : Providers)
    → accounting es ≡ accounting loaded
    → get id es ≡ none
    → get id loaded ≡ none
unfolding get
get-accounting-none id [] [] e h = refl
get-accounting-none id [] ((j, s) ∷ loaded) e h = absurd (ground arith)
get-accounting-none id ((i, r) ∷ es) [] e h = absurd (ground arith)
get-accounting-none id ((i, r) ∷ es) ((j, s) ∷ loaded) e h =
    ground (arith, get-accounting-none id es loaded)

pub Distinct-accounting :
    (es loaded : Providers) → accounting es ≡ accounting loaded → Distinct es → Distinct loaded
Distinct-accounting [] [] e d = tt
Distinct-accounting [] ((j, s) ∷ loaded) e d = absurd (ground arith)
Distinct-accounting ((i, r) ∷ es) [] e d = absurd (ground arith)
Distinct-accounting ((i, r) ∷ es) ((j, s) ∷ loaded) e d =
    let rest : accounting es ≡ accounting loaded = ground arith in
    let same : i ≡ j = ground arith in
    (
      subst (λ k. get k loaded ≡ none) same (get-accounting-none i es loaded rest d.0),
      Distinct-accounting es loaded rest d.1,
    )
