-- ===== src/Scheduler/Plan/Spacing.antt =====
-- The plan of src/scheduler.rs `plan_interval`: where the slots lie, how far apart, and how many.
use netband.Base.{
  ℕ, zero, suc, ◌+◌, ◌≤◌, ◌<◌, ◌≡◌, inl, inr, Option, none, some, List, [], ◌∷◌, length, arith,
  Bool-cases, true, ltb, leb, ◌==◌, ◌||◌, leb→le, ◌&&◌,
}
use netband.Chrono.{Chrono, IsChrono, Instant}
use netband.Scheduler.Types.{ProviderState, SchedulerPolicy}
use netband.Scheduler.Time.{add_duration}
use netband.Scheduler.Plan.{
  sample, spaced, plan_slots, earliest_start, total_ms, plan_interval, or_start, spacing_end,
}

-- `x` is no sooner than the spacing after `previous`.
abbrev pub Clear : Chrono → ℕ → Option Instant → Instant → Type 0
Clear c spacing none x = Unit
Clear c spacing (some previous) x = add_duration c previous spacing ≤ x

-- A list of slots that are spaced, the first after `previous`, and lie from `lo` up to below `hi`.
abbrev pub IsPlan : Chrono → ℕ → Instant → Instant → Option Instant → List Instant → Type 0
IsPlan c spacing lo hi previous [] = Unit
IsPlan c spacing lo hi previous (x ∷ xs) =
    Clear c spacing previous x × (lo ≤ x) × (x < hi) × IsPlan c spacing lo hi (some x) xs

module _ (c : Chrono) (laws : IsChrono c) where
  Clear-of_spaced :
      (spacing : ℕ) (previous : Option Instant) (x : Instant)
      → spaced c spacing previous x ≡ true
      → Clear c spacing previous x
  Clear-of_spaced spacing none x h = tt
  Clear-of_spaced spacing (some p) x h = leb→le _ _ h

  plan_slots-IsPlan :
      (policy : SchedulerPolicy) (earliest end total count rounds index rng : ℕ)
      (previous : Option Instant)
      → IsPlan c policy.min_spacing earliest end previous
          (plan_slots c policy earliest end total count rounds index rng previous).0
  unfolding plan_slots
  plan_slots-IsPlan policy earliest end total count zero index rng previous = tt
  plan_slots-IsPlan policy earliest end total count (suc rounds) index rng previous =
      let drawn = sample total count policy.slot_jitter_pct index rng in
      let x = c.plus earliest (c.milliseconds drawn.0) in
      let ih = plan_slots-IsPlan policy earliest end total count rounds (index + 1) drawn.1 in
      elim (Bool-cases (spaced c policy.min_spacing previous x)) [
        | inl s ↦ elim (Bool-cases (ltb x end)) [
          | inl e ↦
              rw (s, e)
                (
                  Clear-of_spaced policy.min_spacing previous x s,
                  laws.le-plus earliest (c.milliseconds drawn.0),
                  ground arith,
                  ih (some x),
                )
          | inr e ↦ rw (s, e) (ih previous)
        ]
        | inr s ↦ rw s (ih previous)
      ]

plan_slots-length :
    (c : Chrono) (policy : SchedulerPolicy) (earliest end total count rounds index rng : ℕ)
    (previous : Option Instant)
    → length (plan_slots c policy earliest end total count rounds index rng previous).0 ≤ rounds
unfolding plan_slots
plan_slots-length c policy earliest end total count zero index rng previous = omega arith
plan_slots-length c policy earliest end total count (suc rounds) index rng previous =
    let drawn = sample total count policy.slot_jitter_pct index rng in
    let x = c.plus earliest (c.milliseconds drawn.0) in
    let fits = spaced c policy.min_spacing previous x && ltb x end in
    let ih = plan_slots-length c policy earliest end total count rounds (index + 1) drawn.1 in
    elim (Bool-cases fits) [
      | inl e ↦ rw e (omega (arith, ih (some x)))
      | inr e ↦ rw e (omega (arith, ih previous))
    ]

-- For a length of at most `count`, below the day's end and spaced.
pub record GoodPlan (c : Chrono) (spacing : ℕ) (lo hi : Instant) (count : ℕ) (slots : List Instant)
    : Type 0 where
  pub placed : IsPlan c spacing lo hi none slots
  pub few : length slots ≤ count

module _ (c : Chrono) (laws : IsChrono c) where
  -- What `plan_interval` plans lies between the earliest admissible start and the end of the
  -- interval, keeps the minimum spacing between neighbours, and has at most `count` slots.
  pub plan_interval-GoodPlan :
      (state : ProviderState) (policy : SchedulerPolicy) (start end count : ℕ)
      → GoodPlan c policy.min_spacing
          (earliest_start c state policy start)
          end
          count
          (plan_interval c state policy start end count).0
  unfolding plan_interval
  plan_interval-GoodPlan state policy start end count =
      let earliest = earliest_start c state policy start in
      let total = total_ms c earliest end in
      elim (Bool-cases (count == 0 || leb end start)) [
        | inl e ↦ rw e (record { placed = tt; few = omega arith })
        | inr e ↦ elim (Bool-cases (leb end earliest)) [
          | inl e' ↦ rw (e, e') (record { placed = tt; few = omega arith })
          | inr e' ↦
              rw (e, e')
                (record {
                  placed =
                      plan_slots-IsPlan c laws policy earliest end total count count 0
                        state.rng_state none;
                  few =
                      plan_slots-length c policy earliest end total count count 0 state.rng_state
                        none;
                })
        ]
      ]

  -- The earliest start respects the interval, the cooldown and the spacing after the last start.
  pub earliest_start_bounds :
      (state : ProviderState) (policy : SchedulerPolicy) (start : Instant)
      → (start ≤ earliest_start c state policy start)
        × (or_start start state.cooldown_until_utc ≤ earliest_start c state policy start)
        × (or_start start (spacing_end c policy.min_spacing state.last_started_at_utc)
            ≤ earliest_start c state policy start)
  unfolding earliest_start
  earliest_start_bounds state policy start = (omega arith, omega arith, omega arith)
