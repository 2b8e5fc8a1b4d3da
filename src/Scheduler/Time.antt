-- ===== src/Scheduler/Time.antt =====
-- src/scheduler.rs: `day_start`, `day_end`, `add_duration` and `duration_millis`, over the interface
-- to chrono.
use netband.Base.{ℕ, ◌-◌, ◌/◌, ◌^◌, ◌≤◌, ◌<◌, ◌≡◌, min, arith, inl, inr, Option-cases}
use netband.Chrono.{Chrono, IsChrono, Instant, Day, Duration, day_seconds, some_or}

unfoldable pub day_start : Chrono → Day → Instant
day_start c d = c.midnight d

unfoldable pub day_end : Chrono → Day → Instant
unfolding day_start
day_end c d = c.plus (day_start c d) (c.seconds day_seconds)

unfoldable pub add_duration : Chrono → Instant → Duration → Instant
add_duration c t d = some_or (c.checked_add_signed t (some_or (c.from_std d) c.max_delta)) c.max_utc

abbrev pub u64_max : ℕ
u64_max = 2 ^ 64 - 1

-- `as_millis`, saturated to 64 bits.
unfoldable pub duration_millis : Duration → ℕ
duration_millis d = min (d / 1_000_000) u64_max

module _ (c : Chrono) (laws : IsChrono c) where
  pub le-add_duration : (t : Instant) (d : Duration) → t ≤ add_duration c t d
  unfolding add_duration
  le-add_duration t d =
      let delta = some_or (c.from_std d) c.max_delta in
      elim (Option-cases (c.checked_add_signed t delta)) [
        | inl e ↦ rw e (laws.unchecked_le t delta e)
        | inr (u, e) ↦ rw e (laws.checked_le t delta u e)
      ]

  pub add_duration_mono :
      (s t : Instant) (d : Duration) → s ≤ t → add_duration c s d ≤ add_duration c t d
  unfolding add_duration
  add_duration_mono s t d h = laws.saturated_mono s t (some_or (c.from_std d) c.max_delta) h

  pub lt-day_end : (t : Instant) → t < day_end c (c.date_naive t)
  unfolding day_end
  lt-day_end t = (laws.day_end_iff (c.date_naive t) t).1 (omega arith)

  pub day_start-le : (t : Instant) → day_start c (c.date_naive t) ≤ t
  unfolding day_start
  day_start-le t = (laws.day_start_iff (c.date_naive t) t).1 (omega arith)

  pub date_mono : (s t : Instant) → s ≤ t → c.date_naive s ≤ c.date_naive t
  unfolding day_start
  date_mono s t h = (laws.day_start_iff (c.date_naive s) t).0 (omega (arith, day_start-le s))

  -- An instant is of day `d` exactly when it lies between the day's ends.
  pub date_of_between :
      (d : Day) (t : Instant) → day_start c d ≤ t → t < day_end c d → c.date_naive t ≡ d
  unfolding day_start day_end
  date_of_between d t lo hi =
      omega (arith, (laws.day_start_iff d t).0 lo, (laws.day_end_iff d t).0 hi)
