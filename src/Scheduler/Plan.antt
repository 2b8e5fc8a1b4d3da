-- ===== src/Scheduler/Plan.antt =====
-- src/scheduler.rs: `plan_full_day` and `plan_interval`, which draw the day's slots, one from each
-- of `count` equal strata of the time that is left.
pub mod Strata
pub mod Spacing
pub mod Seed
use netband.Base.{
  ℕ, zero, suc, ◌+◌, ◌-◌, ◌*◌, ◌/◌, ◌%◌, max, Bool, true, false, ◌&&◌, ◌||◌, not, Option, none,
  some, List, [], ◌∷◌, ltb, leb, ◌==◌, if◌then◌else◌, retain,
}
use netband.Chrono.{Chrono, Instant}
use netband.Scheduler.Types.{ProviderState, SchedulerPolicy}
use netband.Scheduler.Time.{day_start, day_end, add_duration}
use netband.Scheduler.Random.{next_random}

-- `total_ms * index / count`.
abbrev pub stratum : ℕ → ℕ → ℕ → ℕ
stratum total count index = total * index / count

-- The offset that is drawn in one stratum, in milliseconds, and the new `rng_state`. The signed
-- subtractions are exact: strata go up, and the percentage is 100 at most.
unfoldable pub sample : ℕ → ℕ → ℕ → ℕ → ℕ → ℕ × ℕ
sample total count jitter_pct index rng =
    let stratum_start = stratum total count index in
    let width = max (stratum total count (index + 1) - stratum_start) 1 in
    let jitter_width = width * jitter_pct / 100 in
    let middle_start = stratum_start + (width - jitter_width) / 2 in
    if jitter_width == 0
    then (middle_start, rng)
    else let value = next_random rng in (middle_start + value % jitter_width, value)

abbrev pub spaced : Chrono → ℕ → Option Instant → Instant → Bool
spaced c spacing none candidate = true
spaced c spacing (some previous) candidate = leb (add_duration c previous spacing) candidate

-- The loop over `index`: `previous` is `slots.last()`, and the slots still to come are returned
-- with the last `rng_state`.
plan_slots :
    Chrono
    → SchedulerPolicy
    → Instant
    → Instant
    → ℕ
    → ℕ
    → ℕ
    → ℕ
    → ℕ
    → Option Instant
    → List Instant × ℕ
plan_slots c policy earliest end total count zero index rng previous = ([], rng)
plan_slots c policy earliest end total count (suc rounds) index rng previous =
    let drawn = sample total count policy.slot_jitter_pct index rng in
    let candidate = c.plus earliest (c.milliseconds drawn.0) in
    let fits = spaced c policy.min_spacing previous candidate && ltb candidate end in
    let rest =
      plan_slots c policy earliest end total count rounds (index + 1) drawn.1
        (if fits then some candidate else previous) in
    (if fits then candidate ∷ rest.0 else rest.0, rest.1)

abbrev pub or_start : Instant → Option Instant → Instant
or_start start none = start
or_start start (some t) = t

abbrev pub spacing_end : Chrono → ℕ → Option Instant → Option Instant
spacing_end c spacing none = none
spacing_end c spacing (some last) = some (add_duration c last spacing)

unfoldable pub earliest_start : Chrono → ProviderState → SchedulerPolicy → Instant → Instant
earliest_start c state policy start =
    max
      (max (or_start start (spacing_end c policy.min_spacing state.last_started_at_utc))
        (or_start start state.cooldown_until_utc))
      start

-- The milliseconds that the strata divide.
unfoldable pub total_ms : Chrono → Instant → Instant → ℕ
total_ms c earliest end = max (c.num_milliseconds (c.minus end earliest)) 1

-- The slots, and the new `rng_state`.
unfoldable pub plan_interval :
    Chrono → ProviderState → SchedulerPolicy → Instant → Instant → ℕ → List Instant × ℕ
unfolding plan_slots
plan_interval c state policy start end count =
    let earliest = earliest_start c state policy start in
    if count == 0 || leb end start
    then ([], state.rng_state)
    else if leb end earliest
    then ([], state.rng_state)
    else plan_slots c policy earliest end (total_ms c earliest end) count count 0 state.rng_state
        none

unfoldable pub plan_full_day : Chrono → ProviderState → SchedulerPolicy → Instant → List Instant × ℕ
plan_full_day c state policy now =
    let day = c.date_naive now in
    let planned = plan_interval c state policy (day_start c day) (day_end c day) policy.daily_max in
    (retain (λ slot. ltb now slot) planned.0, planned.1)
