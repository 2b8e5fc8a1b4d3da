-- ===== src/Scheduler/Plan/Strata.antt =====
-- The arithmetic of src/scheduler.rs `plan_interval`: where in its stratum a sample lies, and the
-- range of the intermediate values.
use native.Mathlib.Nat.{le-div_iff_mul-le, div-mul-le_self, mod-lt, mul-le-mul}
use netband.Base.{
  ℕ, suc, ◌+◌, ◌-◌, ◌*◌, ◌/◌, ◌^◌, ◌≤◌, ◌<◌, ◌≡◌, max, arith, Bool-cases, inl, inr, ◌==◌,
}
use netband.Scheduler.Random.{next_random}
use netband.Scheduler.Plan.{stratum, sample}

-- A percentage of at most 100 takes no more than the whole.
part_le : (width pct : ℕ) → pct ≤ 100 → width * pct / 100 ≤ width
part_le width pct h = grind arith

stratum_lt :
    (total count index : ℕ)
    → 0 < count
    → count ≤ total
    → stratum total count index < stratum total count (index + 1)
stratum_lt total count index h k =
    (le-div_iff_mul-le {k = count} {x = suc (stratum total count index)} {y = total * (index + 1)}
        h).1
      (omega (arith, div-mul-le_self (total * index) count))

stratum_mono :
    (total count i j : ℕ) → 0 < count → i ≤ j → stratum total count i ≤ stratum total count j
stratum_mono total count i j h k =
    (le-div_iff_mul-le {k = count} {x = stratum total count i} {y = total * j} h).1
      (grind (arith, div-mul-le_self (total * i) count))

-- The last stratum ends with the interval.
stratum_last : (total count : ℕ) → 0 < count → stratum total count count ≡ total
stratum_last total count h = grind arith

abbrev pub width_of : ℕ → ℕ → ℕ → ℕ
width_of total count index = max (stratum total count (index + 1) - stratum total count index) 1

-- A sample lies in its stratum, or in one millisecond at its start where that is empty.
sample_within :
    (total count pct index rng : ℕ)
    → pct ≤ 100
    → let offset = (sample total count pct index rng).0 in
      (stratum total count index ≤ offset)
      × (offset < stratum total count index + width_of total count index)
unfolding sample
sample_within total count pct index rng p =
    let width = width_of total count index in
    let jitter = width * pct / 100 in
    let part = part_le width pct p in
    elim (Bool-cases (jitter == 0)) [
      | inl e ↦ rw e (omega arith, omega arith)
      | inr e ↦
          rw e (omega arith, omega (arith, mod-lt (next_random rng) {m = jitter} (ground arith)))
    ]

-- With at least a millisecond for each slot and a jitter of at most 100 percent, the sample of each
-- index lies in its own stratum, and so before the end of the divided time.
pub sample_in_stratum :
    (total count pct index rng : ℕ)
    → pct ≤ 100
    → count ≤ total
    → index < count
    → let offset = (sample total count pct index rng).0 in
      (stratum total count index ≤ offset)
      × (offset < stratum total count (index + 1))
      × (offset < total)
sample_in_stratum total count pct index rng p k h =
    let grows = stratum_lt total count index (omega arith) k in
    let ends = stratum_mono total count (index + 1) count (omega arith) (omega arith) in
    let whole = stratum_last total count (omega arith) in
    let within = sample_within total count pct index rng p in
    (omega arith, omega arith, omega arith)

-- For at most a day of milliseconds, a 32-bit count and a percentage of at most 100, the product
-- that gives the end of a stratum, the product of its width with the percentage, and the sampled
-- offset are below 2^63.
pub sample_no_overflow :
    (total count pct index rng : ℕ)
    → total ≤ 86_400_000
    → count < 2 ^ 32
    → index < count
    → pct ≤ 100
    → (total * (index + 1) < 2 ^ 63)
      × (width_of total count index * pct < 2 ^ 63)
      × ((sample total count pct index rng).0 < 2 ^ 63)
sample_no_overflow total count pct index rng t k h p =
    let product =
      mul-le-mul {n₁ = total} {m₁ = index + 1} {n₂ = 86_400_000} {m₂ = 2 ^ 32} t (omega arith) in
    let below = stratum_mono total count index count (omega arith) (omega arith) in
    let ends = stratum_mono total count (index + 1) count (omega arith) (omega arith) in
    let whole = stratum_last total count (omega arith) in
    let width : width_of total count index ≤ 86_400_001 = omega arith in
    let scaled =
      mul-le-mul {n₁ = width_of total count index} {m₁ = pct} {n₂ = 86_400_001} {m₂ = 100} width
        p in
    let within = sample_within total count pct index rng p in
    (omega arith, omega arith, omega arith)
