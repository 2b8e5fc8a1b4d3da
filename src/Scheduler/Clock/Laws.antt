-- ===== src/Scheduler/Clock/Laws.antt =====
-- What `advance_clock`, `reconcile_day` and `replan_remaining` of src/scheduler.rs do.
use netband.Base.{ℕ, ◌-◌, ◌≤◌, ◌≡◌, List, [], ◌∷◌, Option, none, some, arith, All, length}
use netband.Chrono.{Chrono, IsChrono, Instant}
use netband.Scheduler.Types.{ProviderState, SchedulerPolicy}
use netband.Scheduler.Time.{day_end, day_start-le, date_of_between}
use netband.Scheduler.Plan.{earliest_start}
use netband.Scheduler.Plan.Spacing.{IsPlan, plan_interval-GoodPlan, earliest_start_bounds}
use netband.Scheduler.Admission.{runs_on_day}
use netband.Scheduler.Clock.{replan_remaining}

-- A slot of the day of `now`, and not before it.
abbrev pub IsToday : Chrono → Instant → Instant → Type 0
IsToday c now slot = (now ≤ slot) × (c.date_naive slot ≡ c.date_naive now)

module _ (c : Chrono) (laws : IsChrono c) where
  IsToday-of_plan :
      (spacing : ℕ) (lo now : Instant) (previous : Option Instant) (slots : List Instant)
      → now ≤ lo
      → IsPlan c spacing lo (day_end c (c.date_naive now)) previous slots
      → All (IsToday c now) slots
  IsToday-of_plan spacing lo now previous [] le h = tt
  IsToday-of_plan spacing lo now previous (x ∷ xs) le h =
      let start = day_start-le c laws now in
      (
        (omega arith, date_of_between c laws (c.date_naive now) x (omega arith) h.2),
        IsToday-of_plan spacing lo now (some x) xs le h.3,
      )

  -- Replanning leaves slots of the current day that are not past and keep the minimum spacing, and
  -- no more of them than the allowance that the day's runs leave.
  pub replan_remaining_lem :
      (p : SchedulerPolicy) (a : ProviderState) (now : Instant)
      → let b = replan_remaining c p a now in
        All (IsToday c now) b.slots
        × IsPlan c p.min_spacing
            (earliest_start c a p now)
            (day_end c (c.date_naive now))
            none
            b.slots
        × (length b.slots ≤ p.daily_max - runs_on_day c a (c.date_naive now))
  unfolding replan_remaining
  replan_remaining_lem p a now =
      let day = c.date_naive now in
      let plan =
        plan_interval-GoodPlan c laws a p now (day_end c day) (p.daily_max - runs_on_day c a day) in
      (
        IsToday-of_plan p.min_spacing (earliest_start c a p now) now none _
            (earliest_start_bounds c laws a p now).0 plan.placed,
        plan.placed,
        plan.few,
      )
