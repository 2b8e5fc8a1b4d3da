-- ===== src/Monitor/Selection.antt =====
-- The loop of `select_bandwidth_interface` of src/monitor.rs: its end, and what it selects.
use netband.Base.{
  ℕ, zero, suc, ◌+◌, ◌≤◌, ◌≡◌, refl, true, Bool-cases, Option-cases, inl, inr, ◌&&◌, not, Option,
  none, some, List, [], ◌∷◌, String, str_eq, str_eq_iff, arith, length,
}
use netband.Chrono.{Instant}
use netband.Scheduler.Types.{BandwidthOpportunity}
use netband.Interfaces.{FairInterfaceSelector, contains, select}
use netband.Interfaces.Turns.{select-fewest, select-contains}
use netband.Monitor.{
  InterfaceRuntime, Surroundings, Selecting, find, update, mark_available, mark_failed, remove,
  resolved, skip, eligible_names, select_any, select_bandwidth_interface, none_healthy,
}

contains-remove :
    (x y : String) (names : List String)
    → contains y (remove x names) ≡ (contains y names && not (str_eq x y))
unfolding remove
contains-remove x y [] = refl
contains-remove x y (z ∷ names) =
    ground (arith, str_eq_iff x z, str_eq_iff x y, str_eq_iff y z, contains-remove x y names)

length-remove : (x : String) (names : List String) → length (remove x names) ≤ length names
unfolding remove
length-remove x [] = ground arith
length-remove x (y ∷ names) = ground (arith, length-remove x names)

length-remove_member :
    (x : String) (names : List String)
    → contains x names ≡ true
    → length (remove x names) + 1 ≤ length names
unfolding remove
length-remove_member x [] h = absurd (ground arith)
length-remove_member x (y ∷ names) h =
    ground (arith, length-remove x names, length-remove_member x names)

module _ {W : Type 0} where
  find-update :
      (x y : String) (f : InterfaceRuntime W → InterfaceRuntime W) (rs : List (InterfaceRuntime W))
      → ((r : InterfaceRuntime W) → (f r).name ≡ r.name)
      → (r : InterfaceRuntime W) → find y rs ≡ some r
      → (u : InterfaceRuntime W) × (find y (update x f rs) ≡ some u)
  unfolding find update
  find-update x y f [] h r e = absurd (ground arith)
  find-update x y f (q ∷ rs) h r e = elim (Bool-cases (str_eq q.name x)) [
    | inl here ↦ elim (Bool-cases (str_eq q.name y)) [
      | inl asked ↦ (f q, ground (arith, h q))
      | inr other ↦ (r, ground (arith, h q))
    ]
    | inr later ↦ elim (Bool-cases (str_eq q.name y)) [
      | inl asked ↦ (q, ground arith)
      | inr other ↦
          let rest = find-update x y f rs h r (ground arith) in (rest.0, ground (arith, rest.1))
    ]
  ]

  find-update_same :
      (x : String) (f : InterfaceRuntime W → InterfaceRuntime W) (rs : List (InterfaceRuntime W))
      (r : InterfaceRuntime W)
      → (f r).name ≡ r.name
      → find x rs ≡ some r
      → find x (update x f rs) ≡ some (f r)
  unfolding find update
  find-update_same x f [] r h e = absurd (ground arith)
  find-update_same x f (q ∷ rs) r h e = ground (arith, h, find-update_same x f rs r)

  -- The interfaces whose names are in `names` are there.
  abbrev Present : List String → List (InterfaceRuntime W) → Type 0
  Present names rs =
      (y : String) → contains y names ≡ true → (r : InterfaceRuntime W) × (find y rs ≡ some r)

  Present-remove :
      (x : String) (now : Instant) (names : List String) (rs : List (InterfaceRuntime W))
      → Present names rs
      → Present (remove x names) (update x (mark_failed now) rs)
  Present-remove x now names rs p y h =
      let old = p y (ground (arith, contains-remove x y names)) in
      find-update x y (mark_failed now) rs (λ r. refl) old.0 old.1

  -- What a selection promises: an interface among `names` that the resolver has, marked available,
  -- or that the resolver fails for all of them.
  abbrev pub Picks :
      Surroundings → FairInterfaceSelector → List String → Option String × Selecting W → Type 0
  Picks env fairness names (none, s) =
      (y : String)
      → contains y fairness.order ≡ true
      → contains y names ≡ true
      → (error : String) × (env.resolve y ≡ some error)
  Picks env fairness names (some x, s) =
      (contains x names ≡ true)
      × (env.resolve x ≡ none)
      × ((r : InterfaceRuntime W) × (find x s.interfaces ≡ some r) × (r.available ≡ true))

  -- The fuel is enough, and the promise is kept.
  abbrev pub Ends :
      Surroundings
      → FairInterfaceSelector
      → List String
      → Option (Option String × Selecting W)
      → Type 0
  Ends env fairness names o =
      (r : Option String × Selecting W) × (o ≡ some r) × Picks env fairness names r

  Picks-later :
      (env : Surroundings) (fairness : FairInterfaceSelector) (x : String) (names : List String)
      (error : String) (r : Option String × Selecting W)
      → env.resolve x ≡ some error
      → Picks env fairness (remove x names) r
      → Picks env fairness names r
  Picks-later env fairness x names error (none, s) e p = λ y o h. elim (Bool-cases (str_eq x y)) [
    | inl same ↦ (error, ground (arith, str_eq_iff x y, e))
    | inr other ↦ p y o (ground (arith, contains-remove x y names, h))
  ]
  Picks-later env fairness x names error (some z, s) e p =
      (ground (arith, contains-remove x z names, p.0), p.1, p.2)

  select_any-Ends :
      (run_id : String) (env : Surroundings) (fuel : ℕ) (fairness : FairInterfaceSelector)
      (names : List String) (s : Selecting W)
      → length names + 1 ≤ fuel
      → Present names s.interfaces
      → Ends env fairness names (select_any run_id env fuel fairness names s)
  unfolding select_any
  select_any-Ends run_id env zero fairness names s enough p = absurd (ground arith)
  select_any-Ends run_id env (suc fuel) fairness names s enough p =
      elim (Option-cases (select fairness names)) [
        | inl nothing ↦ (
          none_healthy run_id env s,
          rw (select_any, nothing) refl,
          λ y o h.
              let best = select-fewest fairness names y o h in
              absurd (ground (arith, best.1, nothing)),
        )
        | inr (x, e) ↦
            let wanted = (select-contains fairness names x e).1 in
            let r = p x wanted in
            elim (Option-cases (env.resolve x)) [
              | inl fine ↦ (
                (some x, resolved run_id env x s),
                rw (select_any, e, r.1, fine) refl,
                (
                  wanted,
                  fine,
                  (
                    mark_available r.0,
                    find-update_same x mark_available s.interfaces r.0 refl r.1,
                    refl,
                  ),
                ),
              )
              | inr (error, bad) ↦
                  let rest =
                    select_any-Ends run_id env fuel fairness (remove x names)
                      (skip run_id env x error r.0 s)
                      (ground (arith, length-remove_member x names wanted, enough))
                      (Present-remove x (env.failed_at x) names s.interfaces p) in
                  (
                    rest.0,
                    rw (select_any, e, r.1, bad) rest.1,
                    Picks-later env fairness x names error rest.0 bad rest.2,
                  )
            ]
      ]

  find-eligible_names :
      (run_id : String) (env : Surroundings) (rs : List (InterfaceRuntime W))
      → Present (eligible_names run_id env rs) rs
  unfolding find eligible_names
  find-eligible_names run_id env [] y h = absurd (ground arith)
  find-eligible_names run_id env (r ∷ rs) y h = elim (Bool-cases (str_eq r.name y)) [
    | inl here ↦ (r, ground arith)
    | inr other ↦
        let rest =
          find-eligible_names run_id env rs y
            (ground (arith, str_eq_iff y r.name, str_eq_iff r.name y)) in
        (rest.0, ground (arith, rest.1))
  ]

  -- For an opportunity that names no interface the loop ends. It selects an eligible interface that
  -- the resolver has, and leaves it available; or it selects none, and then the resolver fails for
  -- every eligible interface that takes turns.
  pub select_bandwidth_interface-Ends :
      (run_id : String) (env : Surroundings) (opportunity : BandwidthOpportunity)
      (interfaces : List (InterfaceRuntime W)) (fairness : FairInterfaceSelector) (failures : ℕ)
      → opportunity.interface ≡ none
      → Ends env fairness
          (eligible_names run_id env interfaces)
          (select_bandwidth_interface run_id env opportunity interfaces fairness failures)
  unfolding select_bandwidth_interface
  select_bandwidth_interface-Ends run_id env opportunity interfaces fairness failures free =
      let names = eligible_names run_id env interfaces in
      let s : Selecting W = record { interfaces = interfaces; failures = failures; events = [] } in
      let ends =
        select_any-Ends run_id env (suc (length names)) fairness names s (ground arith)
          (find-eligible_names run_id env interfaces) in
      (ends.0, rw (select_bandwidth_interface, free) ends.1, ends.2)
