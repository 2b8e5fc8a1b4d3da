-- ===== src/Examples/Planning.antt =====
-- The planning of slots and the random numbers at concrete inputs.
use netband.Base.{◌+◌, ◌-◌, ◌*◌, ◌/◌, ◌^◌, ◌≤◌, ◌<◌, ◌≡◌, none, All, length, arith, refl, ◌∷◌, []}
use netband.Chrono.Utc.{utc, utc-IsChrono}
use netband.Scheduler.Time.{add_duration, day_end}
use netband.Scheduler.Random.{jitter_duration, next_random}
use netband.Scheduler.Random.Laws.{IsSeed, next_random-IsSeed, jitter_duration_bounds}
use netband.Scheduler.Plan.{stratum, sample, earliest_start, total_ms, plan_interval}
use netband.Scheduler.Plan.Strata.{width_of, sample_in_stratum, sample_no_overflow}
use netband.Scheduler.Plan.Spacing.{GoodPlan, IsPlan, plan_interval-GoodPlan}
use netband.Scheduler.Admission.{runs_on_day}
use netband.Scheduler.Clock.{replan_remaining}
use netband.Scheduler.Clock.Laws.{IsToday, replan_remaining_lem}
use netband.Examples.Fixtures.{policy, second, idle}

next_random-IsSeed_example : IsSeed (next_random 0)
next_random-IsSeed_example = next_random-IsSeed 0 (omega arith)

random_of_zero : next_random 0 ≡ 1_082_269_761
unfolding next_random
random_of_zero = refl

jitter_duration_bounds_example :
    (20_000 * 1_000_000 / 1_000_000 - 20_000 * 1_000_000 / 1_000_000 / 5
      ≤ (jitter_duration 7 (20_000 * 1_000_000)).1 / 1_000_000)
    × ((jitter_duration 7 (20_000 * 1_000_000)).1 / 1_000_000
        ≤ 20_000 * 1_000_000 / 1_000_000 + 20_000 * 1_000_000 / 1_000_000 / 5)
jitter_duration_bounds_example = jitter_duration_bounds 7 (20_000 * 1_000_000) (omega arith)

sample_in_stratum_example :
    (stratum 100 3 1 ≤ (sample 100 3 50 1 7).0)
    × ((sample 100 3 50 1 7).0 < stratum 100 3 2)
    × ((sample 100 3 50 1 7).0 < 100)
sample_in_stratum_example = sample_in_stratum 100 3 50 1 7 (omega arith) (omega arith) (omega arith)

sample_no_overflow_example :
    (86_400_000 * (3 + 1) < 2 ^ 63)
    × (width_of 86_400_000 4 3 * 100 < 2 ^ 63)
    × ((sample 86_400_000 4 100 3 7).0 < 2 ^ 63)
sample_no_overflow_example =
    sample_no_overflow 86_400_000 4 100 3 7 (omega arith) (omega arith) (omega arith) (omega arith)

plan_interval-GoodPlan_example :
    GoodPlan utc
      (10 * second)
      (earliest_start utc idle policy 0)
      (90 * second)
      3
      (plan_interval utc idle policy 0 (90 * second) 3).0
plan_interval-GoodPlan_example =
    plan_interval-GoodPlan utc utc-IsChrono idle policy 0 (90 * second) 3

-- Three strata of thirty seconds, with no jitter: a slot in the middle of each.
three_slots :
    (plan_interval utc idle policy 0 (90 * second) 3).0
    ≡ 15 * second ∷ 45 * second ∷ 75 * second ∷ []
unfolding plan_interval sample earliest_start total_ms add_duration
three_slots = refl

replan_remaining_lem_example :
    All (IsToday utc (5 * second)) (replan_remaining utc policy idle (5 * second)).slots
    × IsPlan utc
        (10 * second)
        (earliest_start utc idle policy (5 * second))
        (day_end utc (utc.date_naive (5 * second)))
        none
        (replan_remaining utc policy idle (5 * second)).slots
    × (length (replan_remaining utc policy idle (5 * second)).slots
        ≤ 2 - runs_on_day utc idle (utc.date_naive (5 * second)))
replan_remaining_lem_example = replan_remaining_lem utc utc-IsChrono policy idle (5 * second)
