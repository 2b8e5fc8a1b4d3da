-- ===== src/Chrono/Utc.antt =====
-- A calendar that meets the interface: instants count nanoseconds, and every day has 24 hours.
-- Concrete inputs of the development are stated over it.
use netband.Base.{ℕ, ◌+◌, ◌-◌, ◌*◌, ◌/◌, ◌^◌, Option, none, some, arith, leb, ltb, if◌then◌else◌}
use netband.Chrono.{Chrono, IsChrono}

abbrev latest : ℕ
latest = 2 ^ 70

abbrev checked_sum : ℕ → ℕ → Option ℕ
checked_sum t d = if leb (t + d) latest then some (t + d) else if leb t latest then none else some t

abbrev pub utc : Chrono
utc = record {
  date_naive = λ t. t / 86_400_000_000_000;
  midnight = λ d. d * 86_400_000_000_000;
  seconds = λ n. n * 1_000_000_000;
  milliseconds = λ n. n * 1_000_000;
  plus = λ t d. t + d;
  minus = λ s t. s - t;
  num_milliseconds = λ d. d / 1_000_000;
  from_std = λ d. if ltb d (2 ^ 63) then some d else none;
  max_delta = 2 ^ 63 * 1_000_000;
  checked_add_signed = checked_sum;
  max_utc = latest;
}

pub utc-IsChrono : IsChrono utc
utc-IsChrono = record {
  day_start_iff = λ d t. (omega arith, omega arith);
  day_end_iff = λ d t. (omega arith, omega arith);
  le-plus = λ t d. omega arith;
  plus-zero = λ t. omega arith;
  plus_mono = λ t m n h. omega arith;
  plus-minus = λ s t h. omega arith;
  checked_le = λ t d u h. ground arith;
  unchecked_le = λ t d h. ground arith;
  saturated_mono = λ s t d h. ground arith;
}
