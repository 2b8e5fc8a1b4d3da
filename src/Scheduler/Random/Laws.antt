-- ===== src/Scheduler/Random/Laws.antt =====
-- The range of the shift register and of the jitter of src/scheduler.rs.
use netband.Base.{ℕ, ◌+◌, ◌-◌, ◌/◌, ◌^◌, ◌≤◌, ◌<◌, ◌≡◌, max, bit_xor, arith}
use netband.Base.Bits.{eq_of_bit_xor, bit_xor-lt}
use netband.Chrono.{Duration}
use netband.Scheduler.Time.{duration_millis}
use netband.Scheduler.Random.{next_random, jitter_duration, xor_left, xor_right}

-- A nonzero 64-bit word.
abbrev pub IsSeed : ℕ → Type 0
IsSeed x = (0 < x) × (x < 2 ^ 64)

xor-IsSeed : (x y : ℕ) → IsSeed x → y < 2 ^ 64 → (x ≡ y → ⊥) → IsSeed (bit_xor x y)
xor-IsSeed x y h fits ne = (ground (arith, eq_of_bit_xor x y), bit_xor-lt 64 x y (omega arith) fits)

-- A shift by 13 or 17 to the left, or by 7 to the right, moves every nonzero word.
xor_left-IsSeed_13 : (x : ℕ) → IsSeed x → IsSeed (xor_left 13 x)
xor_left-IsSeed_13 x h = xor-IsSeed x _ h (omega arith) (λ e. omega arith)

xor_right-IsSeed_7 : (x : ℕ) → IsSeed x → IsSeed (xor_right 7 x)
xor_right-IsSeed_7 x h = xor-IsSeed x _ h (omega arith) (λ e. omega arith)

xor_left-IsSeed_17 : (x : ℕ) → IsSeed x → IsSeed (xor_left 17 x)
xor_left-IsSeed_17 x h = xor-IsSeed x _ h (omega arith) (λ e. omega arith)

-- From any 64-bit `rng_state`, 0 included, the next one is a nonzero 64-bit word.
pub next_random-IsSeed : (rng : ℕ) → rng < 2 ^ 64 → IsSeed (next_random rng)
unfolding next_random
next_random-IsSeed rng h =
    xor_left-IsSeed_17 _ (xor_right-IsSeed_7 _ (xor_left-IsSeed_13 (max rng 1) (omega arith)))

-- The jittered duration is within a fifth of the base in whole milliseconds, on either side, for a
-- base of less than 2^63 ms.
pub jitter_duration_bounds :
    (rng : ℕ) (base : Duration)
    → base / 1_000_000 < 2 ^ 63
    → let millis = base / 1_000_000 in
      let result = (jitter_duration rng base).1 in
      (millis - millis / 5 ≤ result / 1_000_000) × (result / 1_000_000 ≤ millis + millis / 5)
unfolding jitter_duration duration_millis
jitter_duration_bounds rng base h = ground arith

pub jitter_duration-IsSeed :
    (rng : ℕ) (base : Duration) → IsSeed rng → IsSeed (jitter_duration rng base).0
unfolding jitter_duration
jitter_duration-IsSeed rng base h = ground (arith, next_random-IsSeed rng)
