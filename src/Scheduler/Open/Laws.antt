-- ===== src/Scheduler/Open/Laws.antt =====
-- The state with which `open_seeded` of src/scheduler.rs starts, against the validation of the store.
use netband.Base.{
  ℕ, ◌≤◌, ◌<◌, ◌^◌, ◌≡◌, refl, sym, subst, Bool, true, false, Bool-cases, ◌==◌, ◌||◌, inl, inr,
  Option, none, some, [], arith, if◌then◌else◌,
}
use netband.Chrono.{Chrono, Instant}
use netband.Dict.{get}
use netband.Scheduler.Types.{ProviderState, SchedulerPolicy}
use netband.Scheduler.Time.{duration_millis}
use netband.Scheduler.Store.{Storage, Scheduler, Providers, Result, ok, err, persist, store}
use netband.Scheduler.Plan.Seed.{plan_full_day-IsSeed}
use netband.Scheduler.Clock.{reconcile_day, replan_remaining}
use netband.Scheduler.Change.Validity.{IsValid}
use netband.Scheduler.Change.Preserve.{replan-IsValid, reconcile_day-IsValid}
use netband.Scheduler.Open.{
  unplanned, policy_changed, adopt, new_provider, adopt_policy, reconcile_known, reconcile, settle,
  finish_open, open_loaded, from_load, open_seeded,
}

-- What `ValidatedConfig` ensures of a policy.
abbrev pub IsPolicy : SchedulerPolicy → Type 0
IsPolicy p = (p.slot_jitter_pct ≤ 100) × (0 < duration_millis p.min_spacing)

-- The entry of the provider, if the store has one, is valid.
abbrev pub EntryIsValid : Option ProviderState → Type 0
EntryIsValid none = Unit
EntryIsValid (some a) = IsValid a

module _ (c : Chrono) (p : SchedulerPolicy) (now : Instant) where
  unplanned-IsValid : (seed : ℕ) → seed < 2 ^ 64 → IsPolicy p → IsValid (unplanned c p now seed)
  unplanned-IsValid seed word fit = record {
    seed = omega arith;
    jitter = fit.0;
    spacing = fit.1;
    backoff = omega arith;
    sorted = tt;
    started = tt;
  }

  new_provider-IsValid :
      (seed : ℕ) → seed < 2 ^ 64 → IsPolicy p → IsValid (new_provider c p now seed)
  unfolding new_provider
  new_provider-IsValid seed word fit =
      let v = unplanned-IsValid seed word fit in
      record {
        seed = plan_full_day-IsSeed c (unplanned c p now seed) p now v.seed;
        jitter = v.jitter;
        spacing = v.spacing;
        backoff = v.backoff;
        sorted = v.sorted;
        started = v.started;
      }

  adopted-IsValid : (a : ProviderState) → IsPolicy p → IsValid a → IsValid (adopt p a)
  adopted-IsValid a fit v = record {
    seed = v.seed;
    jitter = fit.0;
    spacing = fit.1;
    backoff = v.backoff;
    sorted = v.sorted;
    started = v.started;
  }

  emptied-IsValid :
      (a : ProviderState)
      → IsValid a
      → IsValid (record a { slots = []; interface_triggers = []; deferred = none })
  emptied-IsValid a v = record {
    seed = v.seed;
    jitter = v.jitter;
    spacing = v.spacing;
    backoff = v.backoff;
    sorted = v.sorted;
    started = v.started;
  }

  adopt_policy-IsValid :
      (a : ProviderState) → IsPolicy p → IsValid a → IsValid (adopt_policy c p now a)
  unfolding adopt_policy
  adopt_policy-IsValid a fit v =
      let w = adopted-IsValid a fit v in
      elim (Bool-cases (policy_changed p a)) [
        | inl changed ↦ elim (Bool-cases (p.daily_max == 0)) [
          | inl e ↦ rw (adopt_policy, changed, e) (emptied-IsValid (adopt p a) w)
          | inr e ↦ rw (adopt_policy, changed, e) (replan-IsValid c p now (adopt p a) w)
        ]
        | inr kept ↦ rw (adopt_policy, kept) v
      ]

  reconcile_known-IsValid :
      (a : ProviderState) → IsPolicy p → IsValid a → IsValid (reconcile_known c p now a)
  unfolding reconcile_known
  reconcile_known-IsValid a fit v =
      let w =
        adopt_policy-IsValid (reconcile_day c p a now) fit (reconcile_day-IsValid c p now a v) in
      record {
        seed = w.seed;
        jitter = w.jitter;
        spacing = w.spacing;
        backoff = w.backoff;
        sorted = w.sorted;
        started = w.started;
      }

module _ {D : Type 0} (c : Chrono) (w : Storage D) (p : SchedulerPolicy) (now : Instant) where
  reconcile-IsValid :
      (seed : ℕ) (entry : Option ProviderState)
      → seed < 2 ^ 64
      → IsPolicy p
      → EntryIsValid entry
      → IsValid (reconcile c w p now seed entry).0
  unfolding reconcile
  reconcile-IsValid seed none word fit v = new_provider-IsValid c p now seed word fit
  reconcile-IsValid seed (some a) word fit v = reconcile_known-IsValid c p now a fit v

  replanned-IsValid :
      (recovered : Bool) (a : ProviderState)
      → IsValid a
      → IsValid (if recovered then replan_remaining c p a now else a)
  replanned-IsValid true a v = replan-IsValid c p now a v
  replanned-IsValid false a v = v

  settled_state :
      (dirty : Bool) (s t : Scheduler D)
      → (finish_open c w (settle c w dirty s)).1 ≡ ok t
      → t.state ≡ s.state
  unfolding finish_open settle persist
  settled_state true s t h = ground arith
  settled_state false s t h = ground arith

  from_load-IsValid :
      (seed : ℕ) (loaded : D × Result (Providers × Bool)) (s : Scheduler D)
      → seed < 2 ^ 64
      → IsPolicy p
      → ((providers : Providers) (recovered : Bool)
          → loaded.1 ≡ ok (providers, recovered)
          → EntryIsValid (get p.provider_id providers))
      → (from_load c w p now seed loaded).1 ≡ ok s
      → IsValid s.state
  unfolding from_load open_loaded
  from_load-IsValid seed (d, err e) s word fit loads opened = absurd (ground arith)
  from_load-IsValid seed (d, ok (providers, recovered)) s word fit loads opened =
      let entry = get p.provider_id providers in
      let found = reconcile c w p now seed entry in
      let valid = reconcile-IsValid seed entry word fit (loads providers recovered refl) in
      let state = if recovered then replan_remaining c p found.0 now else found.0 in
      let start : Scheduler D = record {
        disk = d;
        others = providers;
        state = state;
        policy = p;
      } in
      subst IsValid
        (sym
          (settled_state (found.1 || recovered || w.needs_snapshot d (store start)) start s opened))
        (replanned-IsValid recovered found.0 valid)

  -- The scheduler that `open_seeded` returns has a valid state, from a 64-bit seed, under a policy
  -- with a percentage of at most 100 and a spacing of at least a millisecond, and where an entry
  -- that is loaded for the provider is valid.
  pub open_seeded-IsValid :
      (d : D) (seed : ℕ) (s : Scheduler D)
      → seed < 2 ^ 64
      → IsPolicy p
      → ((providers : Providers) (recovered : Bool)
          → (w.load d).1 ≡ ok (providers, recovered)
          → EntryIsValid (get p.provider_id providers))
      → (open_seeded c w d p now seed).1 ≡ ok s
      → IsValid s.state
  unfolding open_seeded
  open_seeded-IsValid d seed s word fit loads opened =
      from_load-IsValid seed (w.load d) s word fit loads opened
