-- ===== src/Chrono.antt =====
-- What scheduler.rs uses of the `chrono` crate, which is not part of the repository: an interface.
-- An instant (`DateTime<Utc>`) and a day (`NaiveDate`) are numbers in their order; durations are
-- numbers in theirs. `IsChrono` holds the documented facts that the scheduler relies on.
pub mod Utc
use netband.Base.{ℕ, ◌+◌, ◌≤◌, ◌<◌, ◌≡◌, ◌↔◌, Option, none, some}

abbrev pub Instant : Type 0
Instant = ℕ

abbrev pub Day : Type 0
Day = ℕ

-- `std::time::Duration`, in nanoseconds.
abbrev pub Duration : Type 0
Duration = ℕ

-- `chrono::TimeDelta`; the scheduler forms none below zero.
abbrev pub TimeDelta : Type 0
TimeDelta = ℕ

pub record Chrono : Type 0 where
  pub date_naive : Instant → Day
  pub midnight : Day → Instant  -- `and_hms_opt(0, 0, 0)`, then `and_utc`
  pub seconds : ℕ → TimeDelta
  pub milliseconds : ℕ → TimeDelta
  pub plus : Instant → TimeDelta → Instant
  pub minus : Instant → Instant → TimeDelta
  pub num_milliseconds : TimeDelta → ℕ
  pub from_std : Duration → Option TimeDelta
  pub max_delta : TimeDelta
  pub checked_add_signed : Instant → TimeDelta → Option Instant
  pub max_utc : Instant

abbrev pub day_seconds : ℕ
day_seconds = 86400

abbrev pub some_or : Option ℕ → ℕ → ℕ
some_or none d = d
some_or (some x) d = x

pub record IsChrono (c : Chrono) : Type 0 where
  pub day_start_iff : (d : Day) (t : Instant) → (c.midnight d ≤ t) ↔ (d ≤ c.date_naive t)
  pub day_end_iff :
      (d : Day) (t : Instant)
      → (t < c.plus (c.midnight d) (c.seconds day_seconds)) ↔ (c.date_naive t ≤ d)
  pub le-plus : (t : Instant) (d : TimeDelta) → t ≤ c.plus t d
  pub plus-zero : (t : Instant) → c.plus t (c.milliseconds 0) ≡ t
  pub plus_mono :
      (t : Instant) (m n : ℕ) → m < n → c.plus t (c.milliseconds m) < c.plus t (c.milliseconds n)
  pub plus-minus :
      (s t : Instant) → s ≤ t → c.plus s (c.milliseconds (c.num_milliseconds (c.minus t s))) ≤ t
  pub checked_le :
      (t : Instant) (d : TimeDelta) (u : Instant) → c.checked_add_signed t d ≡ some u → t ≤ u
  pub unchecked_le : (t : Instant) (d : TimeDelta) → c.checked_add_signed t d ≡ none → t ≤ c.max_utc
  pub saturated_mono :
      (s t : Instant) (d : TimeDelta)
      → s ≤ t
      → some_or (c.checked_add_signed s d) c.max_utc ≤ some_or (c.checked_add_signed t d) c.max_utc
