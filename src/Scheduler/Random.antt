-- ===== src/Scheduler/Random.antt =====
-- src/scheduler.rs: `next_random` and `jitter_duration`. A `u64` keeps its wrap-around written out.
pub mod Laws
use netband.Base.{ℕ, ◌+◌, ◌-◌, ◌*◌, ◌/◌, ◌%◌, ◌^◌, max, min, bit_xor, Bool, ◌==◌, if◌then◌else◌}
use netband.Chrono.{Duration}
use netband.Scheduler.Time.{duration_millis, u64_max}

abbrev pub u64_mod : ℕ
u64_mod = 2 ^ 64

-- `value << k` and `value >> k` on 64 bits.
abbrev pub shl64 : ℕ → ℕ → ℕ
shl64 x k = (x * 2 ^ k) % u64_mod

abbrev pub shr64 : ℕ → ℕ → ℕ
shr64 x k = x / 2 ^ k

abbrev xor_left : ℕ → ℕ → ℕ
xor_left k x = bit_xor x (shl64 x k)

abbrev xor_right : ℕ → ℕ → ℕ
xor_right k x = bit_xor x (shr64 x k)

-- Takes `rng_state`. The result is both the value returned and the new `rng_state`.
unfoldable pub next_random : ℕ → ℕ
next_random rng = xor_left 17 (xor_right 7 (xor_left 13 (max rng 1)))

-- `saturating_add` on 64 bits.
abbrev pub add_sat64 : ℕ → ℕ → ℕ
add_sat64 a b = min (a + b) u64_max

-- The new `rng_state`, and the duration.
unfoldable pub jitter_duration : ℕ → Duration → ℕ × Duration
jitter_duration rng base =
    let millis = duration_millis base in
    let spread = millis / 5 in
    if spread == 0
    then (rng, base)
    else let value = next_random rng in
      let offset = value % add_sat64 (min (spread * 2) u64_max) 1 in
      (value, add_sat64 (millis - spread) offset * 1_000_000)
