-- ===== src/Scheduler/Poll/Oldest.antt =====
-- The trigger that `oldest_eligible_pending_trigger` of src/scheduler.rs selects.
use netband.Base.{
  ◌≤◌, ◌≡◌, ◌⊎◌, refl, sym, subst, Bool, Bool-cases, not, ◌&&◌, true, false, Option, none, some,
  Option-cases, List, [], ◌∷◌, arith, String, inl, inr, All, ltb,
}
use netband.Dict.{Dict, get}
use netband.Scheduler.Types.{PendingTrigger, InterfaceTriggerState}
use netband.Scheduler.Poll.Select.{oldest, eligible, oldest_eligible, earlier, or_false}

abbrev pub NotOlder : String × PendingTrigger → String × PendingTrigger → Type 0
NotOlder x y = (x.1).created_at_utc ≤ (y.1).created_at_utc

All-NotOlder :
    (x y : String × PendingTrigger) (xs : List (String × PendingTrigger))
    → NotOlder x y
    → All (NotOlder y) xs
    → All (NotOlder x) xs
All-NotOlder x y [] le h = tt
All-NotOlder x y (z ∷ zs) le h = (omega (arith, le, h.0), All-NotOlder x y zs le h.1)

-- What is selected among `xs`: the first of the oldest, or nothing of an empty list.
abbrev Selected : List (String × PendingTrigger) → Option (String × PendingTrigger) → Type 0
Selected xs none = xs ≡ []
Selected xs (some x) = All (NotOlder x) xs

earlier-Selected :
    (y : String × PendingTrigger) (ys : List (String × PendingTrigger))
    (o : Option (String × PendingTrigger))
    → Selected ys o
    → Selected (y ∷ ys) (earlier y o)
earlier-Selected y [] none h = (omega arith, tt)
earlier-Selected y (z ∷ zs) none h = absurd (ground arith)
earlier-Selected y ys (some x) h =
    elim (Bool-cases (ltb (x.1).created_at_utc (y.1).created_at_utc)) [
      | inl e ↦ rw e (ground arith, h)
      | inr e ↦ rw e (omega arith, All-NotOlder y x ys (ground arith) h)
    ]

oldest-Selected : (xs : List (String × PendingTrigger)) → Selected xs (oldest xs)
unfolding oldest
oldest-Selected [] = refl
oldest-Selected (y ∷ ys) = earlier-Selected y ys (oldest ys) (oldest-Selected ys)

-- Where the interface of each key may start: its latest round had a success, or a slot is due.
abbrev pub MayStart : Dict Bool → Bool → String → Type 0
MayStart latest allow key = (allow ≡ true) ⊎ (get key latest ≡ some true)

-- Every pending trigger of `triggers` that may start is no older than `x`.
abbrev pub Oldest : Dict Bool → Bool → String × PendingTrigger → Dict InterfaceTriggerState → Type 0
Oldest latest allow x [] = Unit
Oldest latest allow x ((key, state) ∷ rest) =
    ((t : PendingTrigger)
      → state.pending ≡ some t
      → MayStart latest allow key
      → NotOlder x (key, t))
    × Oldest latest allow x rest

eligible-Oldest :
    (latest : Dict Bool) (allow : Bool) (x : String × PendingTrigger)
    (triggers : Dict InterfaceTriggerState)
    → All (NotOlder x) (eligible latest allow triggers)
    → Oldest latest allow x triggers
unfolding eligible
eligible-Oldest latest allow x [] h = tt
eligible-Oldest latest allow x ((key, state) ∷ rest) h =
    elim (Bool-cases (not allow && not (or_false (get key latest)))) [
      | inl skip ↦ (
        λ t held may. absurd (ground arith),
        eligible-Oldest latest allow x rest
            (subst (λ l. All (NotOlder x) l) (rw (eligible, skip) refl) h),
      )
      | inr keep ↦ elim (Option-cases state.pending) [
        | inl e ↦ (
          λ t held may. absurd (ground arith),
          eligible-Oldest latest allow x rest
              (subst (λ l. All (NotOlder x) l) (rw (eligible, keep, e) refl) h),
        )
        | inr (t, e) ↦
            let same : eligible latest allow ((key, state) ∷ rest)
                ≡ (key, t) ∷ eligible latest allow rest =
              rw (eligible, keep, e) refl in
            let both : All (NotOlder x) ((key, t) ∷ eligible latest allow rest) =
              subst (λ l. All (NotOlder x) l) same h in
            (λ u held may. ground arith, eligible-Oldest latest allow x rest both.1)
      ]
    ]

Selected-All :
    (x : String × PendingTrigger) (xs : List (String × PendingTrigger))
    (o : Option (String × PendingTrigger))
    → Selected xs o
    → o ≡ some x
    → All (NotOlder x) xs
Selected-All x xs none h e = absurd (ground arith)
Selected-All x xs (some y) h e = subst (λ o. Selected xs o) e h

-- `x` is the pending trigger of an interface of `triggers` that may start.
abbrev pub Holds : Dict Bool → Bool → String × PendingTrigger → Dict InterfaceTriggerState → Type 0
Holds latest allow x [] = ⊥
Holds latest allow x ((key, state) ∷ rest) =
    ((x.0 ≡ key) × (state.pending ≡ some x.1) × MayStart latest allow key)
    ⊎ Holds latest allow x rest

All-Holds :
    (latest : Dict Bool) (allow : Bool) (e : String × InterfaceTriggerState)
    (rest : Dict InterfaceTriggerState) (xs : List (String × PendingTrigger))
    → All (λ x. Holds latest allow x rest) xs
    → All (λ x. Holds latest allow x (e ∷ rest)) xs
All-Holds latest allow (key, state) rest [] h = tt
All-Holds latest allow (key, state) rest (x ∷ xs) h =
    (inr h.0, All-Holds latest allow (key, state) rest xs h.1)

may_start :
    (latest : Dict Bool) (allow : Bool) (key : String)
    → (not allow && not (or_false (get key latest))) ≡ false
    → MayStart latest allow key
may_start latest true key h = inl refl
may_start latest false key h = inr (ground arith)

eligible-Holds :
    (latest : Dict Bool) (allow : Bool) (triggers : Dict InterfaceTriggerState)
    → All (λ x. Holds latest allow x triggers) (eligible latest allow triggers)
unfolding eligible
eligible-Holds latest allow [] = tt
eligible-Holds latest allow ((key, state) ∷ rest) =
    let later =
      All-Holds latest allow (key, state) rest (eligible latest allow rest)
        (eligible-Holds latest allow rest) in
    elim (Bool-cases (not allow && not (or_false (get key latest)))) [
      | inl skip ↦
          let same : eligible latest allow ((key, state) ∷ rest) ≡ eligible latest allow rest =
            rw (eligible, skip) refl in
          subst (λ l. All (λ x. Holds latest allow x ((key, state) ∷ rest)) l) (sym same) later
      | inr keep ↦ elim (Option-cases state.pending) [
        | inl e ↦
            let same : eligible latest allow ((key, state) ∷ rest) ≡ eligible latest allow rest =
              rw (eligible, keep, e) refl in
            subst (λ l. All (λ x. Holds latest allow x ((key, state) ∷ rest)) l) (sym same) later
        | inr (t, e) ↦
            let same : eligible latest allow ((key, state) ∷ rest)
                ≡ (key, t) ∷ eligible latest allow rest =
              rw (eligible, keep, e) refl in
            subst (λ l. All (λ x. Holds latest allow x ((key, state) ∷ rest)) l) (sym same)
              (inl (refl, e, may_start latest allow key keep), later)
      ]
    ]

oldest-All :
    (P : String × PendingTrigger → Type 0) (xs : List (String × PendingTrigger))
    (x : String × PendingTrigger)
    → All P xs
    → oldest xs ≡ some x
    → P x
unfolding oldest
oldest-All P [] x h e = absurd (ground arith)
oldest-All P (y ∷ ys) x h e = elim (Option-cases (oldest ys)) [
  | inl nothing ↦ subst P (ground (arith, nothing)) h.0
  | inr (z, found) ↦ elim (Bool-cases (ltb (z.1).created_at_utc (y.1).created_at_utc)) [
    | inl later ↦ subst P (ground (arith, found)) (oldest-All P ys z h.1 found)
    | inr first ↦ subst P (ground (arith, found)) h.0
  ]
]

-- What is selected is the pending trigger of an interface that may start, as its latest round had a
-- success or a slot is due, and was created no later than any other such trigger.
pub oldest_eligible-Oldest :
    (latest : Dict Bool) (allow : Bool) (triggers : Dict InterfaceTriggerState)
    (x : String × PendingTrigger)
    → oldest_eligible latest allow triggers ≡ some x
    → Holds latest allow x triggers × Oldest latest allow x triggers
unfolding oldest_eligible
oldest_eligible-Oldest latest allow triggers x h =
    let found = eligible latest allow triggers in
    (
      oldest-All (λ y. Holds latest allow y triggers) found x (eligible-Holds latest allow triggers)
          h,
      eligible-Oldest latest allow x triggers
          (Selected-All x found (oldest found) (oldest-Selected found) h),
    )
