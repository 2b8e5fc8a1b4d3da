-- ===== src/Scheduler/Plan/Seed.antt =====
-- The `rng_state` of src/scheduler.rs under planning.
use netband.Base.{ℕ, zero, suc, ◌+◌, Bool-cases, inl, inr, Option, none, ◌==◌, ◌||◌, leb, arith}
use netband.Chrono.{Chrono, Instant}
use netband.Scheduler.Types.{ProviderState, SchedulerPolicy}
use netband.Scheduler.Time.{day_start, day_end}
use netband.Scheduler.Random.Laws.{IsSeed, next_random-IsSeed}
use netband.Scheduler.Plan.{
  sample, plan_slots, earliest_start, total_ms, plan_interval, plan_full_day,
}

sample-IsSeed :
    (total count pct index rng : ℕ) → IsSeed rng → IsSeed (sample total count pct index rng).1
unfolding sample
sample-IsSeed total count pct index rng h = ground (arith, next_random-IsSeed rng)

plan_slots-IsSeed :
    (c : Chrono) (p : SchedulerPolicy) (earliest end total count rounds index rng : ℕ)
    (previous : Option Instant)
    → IsSeed rng
    → IsSeed (plan_slots c p earliest end total count rounds index rng previous).1
unfolding plan_slots
plan_slots-IsSeed c p earliest end total count zero index rng previous h = h
plan_slots-IsSeed c p earliest end total count (suc rounds) index rng previous h =
    plan_slots-IsSeed c p earliest end total count rounds (index + 1) _ _
      (sample-IsSeed total count p.slot_jitter_pct index rng h)

pub plan_interval-IsSeed :
    (c : Chrono) (a : ProviderState) (p : SchedulerPolicy) (start end : Instant) (count : ℕ)
    → IsSeed a.rng_state
    → IsSeed (plan_interval c a p start end count).1
unfolding plan_interval
plan_interval-IsSeed c a p start end count h =
    let earliest = earliest_start c a p start in
    elim (Bool-cases (count == 0 || leb end start)) [
      | inl e ↦ rw e h
      | inr e ↦ elim (Bool-cases (leb end earliest)) [
        | inl e' ↦ rw (e, e') h
        | inr e' ↦
            rw (e, e')
              (plan_slots-IsSeed c p earliest end (total_ms c earliest end) count count 0
                a.rng_state none h)
      ]
    ]

pub plan_full_day-IsSeed :
    (c : Chrono) (a : ProviderState) (p : SchedulerPolicy) (now : Instant)
    → IsSeed a.rng_state
    → IsSeed (plan_full_day c a p now).1
unfolding plan_full_day
plan_full_day-IsSeed c a p now h =
    plan_interval-IsSeed c a p (day_start c (c.date_naive now)) (day_end c (c.date_naive now))
      p.daily_max h
