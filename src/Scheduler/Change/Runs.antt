-- ===== src/Scheduler/Change/Runs.antt =====
-- What the changes do to the runs that the caps and the spacing are counted from.
use netband.Base.{
  ◌≤◌, ◌≡◌, refl, Bool, Bool-cases, inl, inr, Option, none, some, List, [], ◌∷◌, ◌++◌, arith, leb,
  count_if, String, Option-cases,
}
use netband.Base.Counting.{count_if-append, count_if-retain, count_if-sort}
use netband.Chrono.{Chrono, IsChrono, Instant, Day}
use netband.Model.{TriggerReason}
use netband.Scheduler.Types.{
  ProviderState, SchedulerPolicy, BandwidthOpportunity, RateLimit, PendingTrigger,
}
use netband.Scheduler.Time.{date_mono}
use netband.Scheduler.Admission.{on_day}
use netband.Scheduler.Clock.{reconcile_day, replan_remaining, observed}
use netband.Scheduler.Trigger.{latch, disarm, clear_pending}
use netband.Scheduler.Reserve.{book, latest_start}
use netband.Scheduler.Poll.{after_block, after_start}
use netband.Scheduler.Poll.Select.{clear_expired, remove_due_slots, remove_first_slot}
use netband.Scheduler.Attempt.{rate_limited, finished, next_backoff, cool}
use netband.Scheduler.Change.{
  Change, same, observe, reconcile, raise, rearm, expire, abandon, block, start, booked, limited,
  finish, chain,
}

-- The newest start of a history is no later than the state's last start.
abbrev pub LatestLe : Option Instant → List Instant → Type 0
LatestLe last [] = Unit
LatestLe none (x ∷ h) = ⊥
LatestLe (some t) (x ∷ h) = x ≤ t

-- At time `t` the state accounts for the starts `h`: none is after its last start, and its runs
-- hold those of every day that it still counts, which today is one of.
pub record Accounts (c : Chrono) (t : Instant) (a : ProviderState) (h : List Instant) : Type 0 where
  pub current : a.day_utc ≤ c.date_naive t
  pub kept : (d : Day) → a.day_utc ≤ d → count_if (on_day c d) h ≤ count_if (on_day c d) a.runs
  pub latest : LatestLe a.last_started_at_utc h

-- Nothing that the caps and the spacing read has changed.
pub record SameRuns (a b : ProviderState) : Type 0 where
  pub day : b.day_utc ≡ a.day_utc
  pub runs : b.runs ≡ a.runs
  pub last : b.last_started_at_utc ≡ a.last_started_at_utc

limited-SameRuns :
    (c : Chrono) (p : SchedulerPolicy) (now : Instant) (o : BandwidthOpportunity) (reserved : Bool)
    (limit : RateLimit) (a : ProviderState)
    → SameRuns a (rate_limited c p now o reserved limit a).0
unfolding rate_limited replan_remaining clear_pending next_backoff cool
limited-SameRuns c p now o reserved limit a = elim (Option-cases limit.deadline) [
  | inl e ↦ rw e (record { day = refl; runs = refl; last = refl })
  | inr (d, e) ↦ rw e (record { day = refl; runs = refl; last = refl })
]

finished-SameRuns :
    (c : Chrono) (p : SchedulerPolicy) (now : Instant) (o : BandwidthOpportunity)
    (reserved successful : Bool) (a : ProviderState)
    → SameRuns a (finished c p now o reserved successful a)
unfolding finished replan_remaining clear_pending
finished-SameRuns c p now o reserved successful a = ground arith

block-SameRuns :
    (now : Instant) (due terminal : Bool) (pending : Option (String × PendingTrigger))
    (a : ProviderState)
    → SameRuns a (after_block now due terminal pending a)
unfolding clear_pending remove_due_slots
block-SameRuns now due terminal pending a = ground arith

start-SameRuns :
    (now : Instant) (due : Bool) (why : TriggerReason) (a : ProviderState)
    → SameRuns a (after_start now due why a)
unfolding remove_due_slots remove_first_slot
start-SameRuns now due why a = ground arith

module _ (c : Chrono) (laws : IsChrono c) (p : SchedulerPolicy) where
  Accounts-of_same :
      (t now : Instant) {a b : ProviderState} (h : List Instant)
      → t ≤ now
      → SameRuns a b
      → Accounts c t a h
      → Accounts c now b h
  Accounts-of_same t now h le e v = record {
    current = omega (arith, date_mono c laws t now le, e, v);
    kept = λ d le'. rw (e.runs) (v.kept d (rw e.day at le'));
    latest = rw (e.last) v.latest;
  }

  reconcile_day-Accounts :
      (t now : Instant) (a : ProviderState) (h : List Instant)
      → t ≤ now
      → Accounts c t a h
      → Accounts c now (reconcile_day c p a now) h
  unfolding reconcile_day
  reconcile_day-Accounts t now a h le v = elim (Bool-cases (leb (c.date_naive now) a.day_utc)) [
    | inl e ↦ rw e (Accounts-of_same t now h le (record { day = refl; runs = refl; last = refl }) v)
    | inr e ↦ rw e (record {
      current = omega arith;
      kept = λ d today. omega (
        arith,
        v.kept d (ground arith),
        count_if-retain (on_day c d) (λ run. leb (c.date_naive now) (c.date_naive run)) a.runs
            (λ run at_d. ground arith),
      );
      latest = v.latest;
    })
  ]

  observed-Accounts :
      (t now : Instant) (a : ProviderState) (h : List Instant)
      → t ≤ now
      → Accounts c t a h
      → Accounts c now (observed c p now a) h
  observed-Accounts t now a h le v =
      let w = reconcile_day-Accounts t now a h le v in
      record { current = w.current; kept = w.kept; latest = w.latest }

  later :
      (last : Option Instant) (h : List Instant) (now : Instant)
      → LatestLe last h
      → LatestLe (latest_start last now) h
  later last [] now v = tt
  later none (x ∷ h) now v = absurd v
  later (some t) (x ∷ h) now v = omega arith

  book-Accounts :
      (now : Instant) (a : ProviderState) (h : List Instant)
      → Accounts c now a h
      → Accounts c now (book now a) h
  unfolding book
  book-Accounts now a h v = record {
    current = v.current;
    kept = λ d le. omega (
      arith,
      v.kept d le,
      count_if-sort (on_day c d) (a.runs ++ now ∷ []),
      count_if-append {0} (on_day c d) a.runs (now ∷ []),
    );
    latest = later a.last_started_at_utc h now v.latest;
  }

  -- Whatever the methods do to the state, it goes on accounting for the starts so far.
  pub Change-Accounts :
      (now t : Instant) {a b : ProviderState} (h : List Instant)
      → t ≤ now
      → Change c p now a b
      → Accounts c t a h
      → Accounts c now b h
  unfolding latch disarm clear_expired
  Change-Accounts now t {a} h le same v =
      Accounts-of_same t now h le (record { day = refl; runs = refl; last = refl }) v
  Change-Accounts now t h le (observe {a = a}) v = observed-Accounts t now a h le v
  Change-Accounts now t h le (reconcile {a = a}) v = reconcile_day-Accounts t now a h le v
  Change-Accounts now t h le (raise why interface expires) v =
      Accounts-of_same t now h le (record { day = refl; runs = refl; last = refl }) v
  Change-Accounts now t h le (rearm interface) v =
      Accounts-of_same t now h le (record { day = refl; runs = refl; last = refl }) v
  Change-Accounts now t h le (expire expired) v =
      Accounts-of_same t now h le (record { day = refl; runs = refl; last = refl }) v
  Change-Accounts now t h le abandon v =
      Accounts-of_same t now h le (record { day = refl; runs = refl; last = refl }) v
  Change-Accounts now t h le (block {a = a} due terminal pending) v =
      Accounts-of_same t now h le (block-SameRuns now due terminal pending a) v
  Change-Accounts now t h le (start {a = a} due why) v =
      Accounts-of_same t now h le (start-SameRuns now due why a) v
  Change-Accounts now t h le (booked {a = a} _) v =
      book-Accounts now a h
        (Accounts-of_same t now h le (record { day = refl; runs = refl; last = refl }) v)
  Change-Accounts now t h le (limited {a = a} o reserved limit) v =
      Accounts-of_same t now h le (limited-SameRuns c p now o reserved limit a) v
  Change-Accounts now t h le (finish {a = a} o reserved successful) v =
      Accounts-of_same t now h le (finished-SameRuns c p now o reserved successful a) v
  Change-Accounts now t h le (chain x y) v =
      Change-Accounts now now h (omega arith) y (Change-Accounts now t h le x v)

-- The day of the state never goes back.
pub Change-day_le :
    (c : Chrono) (p : SchedulerPolicy) (now : Instant) {a b : ProviderState}
    → Change c p now a b
    → a.day_utc ≤ b.day_utc
unfolding latch disarm clear_expired book reconcile_day
Change-day_le c p now same = omega arith
Change-day_le c p now observe = ground arith
Change-day_le c p now reconcile = ground arith
Change-day_le c p now (raise why interface expires) = omega arith
Change-day_le c p now (rearm interface) = omega arith
Change-day_le c p now (expire expired) = omega arith
Change-day_le c p now abandon = omega arith
Change-day_le c p now (block {a = a} due terminal pending) =
    omega (arith, block-SameRuns now due terminal pending a)
Change-day_le c p now (start {a = a} due why) = omega (arith, start-SameRuns now due why a)
Change-day_le c p now (booked e) = omega arith
Change-day_le c p now (limited {a = a} o reserved limit) =
    omega (arith, limited-SameRuns c p now o reserved limit a)
Change-day_le c p now (finish {a = a} o reserved successful) =
    omega (arith, finished-SameRuns c p now o reserved successful a)
Change-day_le c p now (chain x y) = omega (arith, Change-day_le c p now x, Change-day_le c p now y)
