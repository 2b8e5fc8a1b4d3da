-- ===== src/Scheduler/Trace/Admitted.antt =====
-- One call of the scheduler, seen by the starts that it admits.
use netband.Base.{
  ℕ, ◌≤◌, ◌<◌, ◌≡◌, Option, none, some, List, [], ◌∷◌, ◌++◌, true, false, arith, count_if, ◌⊎◌, ◌^◌,
}
use netband.Base.Counting.{count_if-append, count_if-sort}
use netband.Chrono.{Chrono, IsChrono, Instant, Day}
use netband.Model.{is_mlab}
use netband.Scheduler.Types.{ProviderState, SchedulerPolicy}
use netband.Scheduler.Time.{add_duration, add_duration_mono}
use netband.Scheduler.Admission.{runs_on_day, on_day, mlab_daily_max}
use netband.Scheduler.Admission.Laws.{Admissible, SpacedFrom}
use netband.Scheduler.Reserve.{book, latest_start}
use netband.Scheduler.Change.Runs.{Accounts, LatestLe}

-- `cap` bounds the starts of a day: M-Lab's cap, or the configured one where it is not forced.
abbrev pub IsCap : SchedulerPolicy → ℕ → Type 0
IsCap p cap =
    ((is_mlab p.provider_kind ≡ true) × (cap ≡ mlab_daily_max))
    ⊎ ((p.force_limits ≡ false) × (cap ≡ p.daily_max) × (cap < 2 ^ 32))

-- Each start, newest first, is no sooner than the spacing after the one before it.
abbrev pub IsSpaced : Chrono → ℕ → List Instant → Type 0
IsSpaced c spacing [] = Unit
IsSpaced c spacing (x ∷ []) = Unit
IsSpaced c spacing (x ∷ y ∷ h) = (add_duration c y spacing ≤ x) × IsSpaced c spacing (y ∷ h)

module _ (c : Chrono) (laws : IsChrono c) (p : SchedulerPolicy) (now : Instant) where
  -- The runs of the day are below a cap where the policy lets a start through.
  below_cap :
      (cap : ℕ) (a : ProviderState)
      → IsCap p cap
      → Admissible c p a now
      → count_if (on_day c (c.date_naive now)) a.runs < cap
  unfolding runs_on_day
  below_cap cap a h v = ground arith

  now_latest :
      (last : Option Instant) (h : List Instant) → LatestLe (latest_start last now) (now ∷ h)
  now_latest none h = omega arith
  now_latest (some t) h = omega arith

  spaced_from :
      (x : Instant) (last : Option Instant) (h : List Instant)
      → SpacedFrom c p.min_spacing last now
      → LatestLe last (x ∷ h)
      → add_duration c x p.min_spacing ≤ now
  spaced_from x none h s v = absurd v
  spaced_from x (some t) h s v = omega (arith, add_duration_mono c laws x t p.min_spacing v)

  -- The accounting after a start that was booked.
  pub admitted-Accounts :
      (a : ProviderState) (h : List Instant)
      → Accounts c now a h
      → Accounts c now (book now a) (now ∷ h)
  unfolding book
  admitted-Accounts a h v = record {
    current = v.current;
    kept = λ d le. ground (
      arith,
      v.kept d le,
      count_if-sort (on_day c d) (a.runs ++ now ∷ []),
      count_if-append {0} (on_day c d) a.runs (now ∷ []),
    );
    latest = now_latest a.last_started_at_utc h;
  }

  pub admitted_capped :
      (cap : ℕ) (a : ProviderState) (h : List Instant)
      → IsCap p cap
      → Admissible c p a now
      → Accounts c now a h
      → ((d : Day) → count_if (on_day c d) h ≤ cap)
      → (d : Day) → count_if (on_day c d) (now ∷ h) ≤ cap
  admitted_capped cap a h is_cap ok v capped d =
      ground (arith, below_cap cap a is_cap ok, v.kept (c.date_naive now) v.current, capped d)

  pub admitted-IsSpaced :
      (a : ProviderState) (h : List Instant)
      → p.force_limits ≡ false
      → Admissible c p a now
      → Accounts c now a h
      → IsSpaced c p.min_spacing h
      → IsSpaced c p.min_spacing (now ∷ h)
  admitted-IsSpaced a [] free ok v s = tt
  admitted-IsSpaced a (x ∷ h) free ok v s =
      (spaced_from x a.last_started_at_utc h (ok.spacing free) v.latest, s)
