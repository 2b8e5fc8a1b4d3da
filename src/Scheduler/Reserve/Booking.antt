-- ===== src/Scheduler/Reserve/Booking.antt =====
-- What the new day and the booking of a start in src/scheduler.rs do to the runs and to what the
-- policy looks at.
use netband.Base.{
  ◌≤◌, ◌≡◌, ◌↔◌, refl, sym, subst, min, Bool, Bool-cases, true, inl, inr, some, List, [], ◌∷◌, ◌++◌,
  arith, leb, count_if, max, Option-cases,
}
use netband.Base.Counting.{count_if-append, count_if-sort, count_if-retain}
use netband.Base.Sorting.{IsSorted, sort-IsSorted}
use netband.Chrono.{Chrono, Instant}
use netband.Scheduler.Types.{ProviderState, SchedulerPolicy}
use netband.Scheduler.Admission.{runs_on_day, on_day, u32_max}
use netband.Scheduler.Admission.Laws.{Admissible, NotBefore, SpacedFrom}
use netband.Scheduler.Clock.{reconcile_day}
use netband.Scheduler.Reserve.{book}

-- From the day of `now` on, the state has exactly the given runs, in some order.
abbrev pub Counts : Chrono → Instant → List Instant → ProviderState → Type 0
Counts c now runs after =
    (p : Instant → Bool)
    → ((t : Instant) → p t ≡ true → c.date_naive now ≤ c.date_naive t)
    → count_if p after.runs ≡ count_if p runs

module _ (c : Chrono) (policy : SchedulerPolicy) (now : Instant) (s : ProviderState) where
  pub reconcile_day-Counts : Counts c now s.runs (reconcile_day c policy s now)
  unfolding reconcile_day
  reconcile_day-Counts p today = elim (Bool-cases (leb (c.date_naive now) s.day_utc)) [
    | inl same ↦ ground (arith, same)
    | inr new ↦
        let kept =
          count_if-retain p (λ run. leb (c.date_naive now) (c.date_naive run)) s.runs
            (λ t h. let later = today t h in ground arith) in
        ground (arith, new, kept)
  ]

  pub Counts-today :
      (runs : List Instant) (after : ProviderState)
      → Counts c now runs after
      → runs_on_day c after (c.date_naive now)
        ≡ min (count_if (on_day c (c.date_naive now)) runs) u32_max
  unfolding runs_on_day
  Counts-today runs after h =
      let same = h (on_day c (c.date_naive now)) (λ t e. ground arith) in omega (arith, same)

  reconcile_day-today :
      runs_on_day c (reconcile_day c policy s now) (c.date_naive now)
      ≡ runs_on_day c s (c.date_naive now)
  unfolding runs_on_day
  reconcile_day-today = Counts-today s.runs (reconcile_day c policy s now) reconcile_day-Counts

  pub reconcile_day-last_started :
      (reconcile_day c policy s now).last_started_at_utc ≡ s.last_started_at_utc
  unfolding reconcile_day
  reconcile_day-last_started = ground arith

  reconcile_day-cooldown :
      NotBefore (reconcile_day c policy s now).cooldown_until_utc now
      ↔ NotBefore s.cooldown_until_utc now
  unfolding reconcile_day
  reconcile_day-cooldown = (λ h. ground arith, λ h. ground arith)

  -- A new day changes nothing that the policy looks at.
  pub reconcile_day-Admissible :
      Admissible c policy (reconcile_day c policy s now) now ↔ Admissible c policy s now
  reconcile_day-Admissible =
      let today = reconcile_day-today in
      let started = reconcile_day-last_started in
      let cool = reconcile_day-cooldown in
      (
        λ h. record {
          hard_cap = λ m. omega (arith, today, h.hard_cap m);
          daily_cap = λ m. omega (arith, today, h.daily_cap m);
          cooldown = λ m. cool.0 (h.cooldown m);
          spacing = λ m. subst (λ t. SpacedFrom c policy.min_spacing t now) started (h.spacing m);
        },
        λ h. record {
          hard_cap = λ m. omega (arith, today, h.hard_cap m);
          daily_cap = λ m. omega (arith, today, h.daily_cap m);
          cooldown = λ m. cool.1 (h.cooldown m);
          spacing =
              λ m. subst (λ t. SpacedFrom c policy.min_spacing t now) (sym started) (h.spacing m);
        },
      )

  pub book-Counts : Counts c now (now ∷ s.runs) (book now s)
  unfolding book
  book-Counts p today =
      ground (arith, count_if-sort p (s.runs ++ now ∷ []), count_if-append p s.runs (now ∷ []))

  pub book-IsSorted : IsSorted (book now s).runs
  unfolding book
  book-IsSorted = sort-IsSorted (s.runs ++ now ∷ [])

  pub book-last_started :
      (t : Instant) × ((book now s).last_started_at_utc ≡ some t)
      × (now ≤ t)
      × NotBefore s.last_started_at_utc t
  unfolding book
  book-last_started = elim (Option-cases s.last_started_at_utc) [
    | inl e ↦ rw e (now, refl, omega arith, tt)
    | inr (t, e) ↦ rw e (max t now, refl, omega arith, omega arith)
  ]
