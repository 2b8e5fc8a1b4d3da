-- ===== src/Scheduler/Change/Preserve.antt =====
-- The validity of a state under each change.
use netband.Base.{
  ◌≤◌, ◌≡◌, Bool, true, false, Bool-cases, inl, inr, Option, none, some, List, [], ◌∷◌, ◌++◌,
  String, arith, leb, max, retain, sort, ◌-◌, not,
}
use netband.Base.Sorting.{
  Bounded-mono, All-retain, retain-IsSorted, All-sort, sort-IsSorted, All-append,
}
use netband.Chrono.{Chrono, Instant}
use netband.Model.{TriggerReason, is_scheduled}
use netband.Scheduler.Types.{
  ProviderState, SchedulerPolicy, PendingTrigger, BandwidthOpportunity, RateLimit,
}
use netband.Scheduler.Time.{day_end}
use netband.Scheduler.Random.Laws.{jitter_duration-IsSeed}
use netband.Scheduler.Plan.Seed.{plan_interval-IsSeed, plan_full_day-IsSeed}
use netband.Scheduler.Admission.{runs_on_day}
use netband.Scheduler.Clock.{reconcile_day, replan_remaining, observed, new_day}
use netband.Scheduler.Trigger.{latch, disarm, clear_pending}
use netband.Scheduler.Reserve.{book, latest_start}
use netband.Scheduler.Poll.{after_block, after_start}
use netband.Scheduler.Poll.Select.{clear_expired, remove_due_slots, remove_first_slot}
use netband.Scheduler.Attempt.{
  rate_limited, finished, next_backoff, settled, backoff_base, own_deadline, no_earlier, cool,
}
use netband.Scheduler.Change.{
  Change, same, observe, reconcile, raise, rearm, expire, abandon, block, start, booked, limited,
  finish, chain,
}
use netband.Scheduler.Change.Validity.{IsValid, Started}

-- None of the fields that the validation reads has changed.
record SameBooks (a b : ProviderState) : Type 0 where
  rng : b.rng_state ≡ a.rng_state
  jitter : b.policy_slot_jitter_pct ≡ a.policy_slot_jitter_pct
  spacing : b.policy_min_spacing_ms ≡ a.policy_min_spacing_ms
  backoff : b.backoff_step ≡ a.backoff_step
  runs : b.runs ≡ a.runs
  last : b.last_started_at_utc ≡ a.last_started_at_utc

IsValid-of_same : (a b : ProviderState) → SameBooks a b → IsValid a → IsValid b
IsValid-of_same a b e v = record {
  seed = omega (arith, e, v);
  jitter = omega (arith, e, v);
  spacing = omega (arith, e, v);
  backoff = omega (arith, e, v);
  sorted = rw (e.runs) v.sorted;
  started = rw (e.runs, e.last) v.started;
}

block-SameBooks :
    (now : Instant) (due terminal : Bool) (pending : Option (String × PendingTrigger))
    (a : ProviderState)
    → SameBooks a (after_block now due terminal pending a)
unfolding clear_pending remove_due_slots
block-SameBooks now due terminal pending a = ground arith

start-SameBooks :
    (now : Instant) (due : Bool) (why : TriggerReason) (a : ProviderState)
    → SameBooks a (after_start now due why a)
unfolding remove_due_slots remove_first_slot
start-SameBooks now due why a = ground arith

Started-retain :
    (keep : Instant → Bool) (last : Option Instant) (runs : List Instant)
    → Started last runs
    → Started last (retain keep runs)
Started-retain keep none [] h = tt
Started-retain keep none (x ∷ xs) h = absurd h
Started-retain keep (some t) runs h = All-retain (λ x. x ≤ t) keep runs h

Started-book :
    (now : Instant) (last : Option Instant) (runs : List Instant)
    → Started last runs
    → Started (latest_start last now) (sort (runs ++ now ∷ []))
Started-book now none [] h = (omega arith, tt)
Started-book now none (x ∷ xs) h = absurd h
Started-book now (some t) runs h =
    All-sort (λ x. x ≤ max t now) (runs ++ now ∷ [])
      (All-append {0, 0} (λ x. x ≤ max t now) runs (now ∷ [])
        (Bounded-mono t (max t now) runs (omega arith) h) (omega arith, tt))

book-IsValid : (now : Instant) (a : ProviderState) → IsValid a → IsValid (book now a)
unfolding book
book-IsValid now a v = record {
  seed = v.seed;
  jitter = v.jitter;
  spacing = v.spacing;
  backoff = v.backoff;
  sorted = sort-IsSorted (a.runs ++ now ∷ []);
  started = Started-book now a.last_started_at_utc a.runs v.started;
}

module _ (c : Chrono) (p : SchedulerPolicy) (now : Instant) where
  pub replan-IsValid : (a : ProviderState) → IsValid a → IsValid (replan_remaining c p a now)
  unfolding replan_remaining
  replan-IsValid a v =
      let day = c.date_naive now in
      record {
        seed =
            plan_interval-IsSeed c a p now (day_end c day) (p.daily_max - runs_on_day c a day)
              v.seed;
        jitter = v.jitter;
        spacing = v.spacing;
        backoff = v.backoff;
        sorted = v.sorted;
        started = v.started;
      }

  pub reconcile_day-IsValid : (a : ProviderState) → IsValid a → IsValid (reconcile_day c p a now)
  unfolding reconcile_day
  reconcile_day-IsValid a v = elim (Bool-cases (leb (c.date_naive now) a.day_utc)) [
    | inl e ↦ rw e v
    | inr e ↦ rw e (record {
      seed = plan_full_day-IsSeed c (new_day c a now) p now v.seed;
      jitter = v.jitter;
      spacing = v.spacing;
      backoff = v.backoff;
      sorted = retain-IsSorted (λ run. leb (c.date_naive now) (c.date_naive run)) a.runs v.sorted;
      started = Started-retain _ a.last_started_at_utc a.runs v.started;
    })
  ]

  observed-IsValid : (a : ProviderState) → IsValid a → IsValid (observed c p now a)
  observed-IsValid a v =
      let r = reconcile_day-IsValid a v in
      record {
        seed = r.seed;
        jitter = r.jitter;
        spacing = r.spacing;
        backoff = r.backoff;
        sorted = r.sorted;
        started = r.started;
      }

  clear_pending-IsValid :
      (interface : Option String) (a : ProviderState)
      → IsValid a
      → IsValid (clear_pending interface a)
  unfolding clear_pending
  clear_pending-IsValid interface a v =
      IsValid-of_same a (clear_pending interface a) (ground arith) v

  next_backoff-IsValid : (a : ProviderState) → IsValid a → IsValid (next_backoff p a).0
  unfolding next_backoff
  next_backoff-IsValid a v = record {
    seed = jitter_duration-IsSeed a.rng_state (backoff_base p a.backoff_step) v.seed;
    jitter = v.jitter;
    spacing = v.spacing;
    backoff = omega arith;
    sorted = v.sorted;
    started = v.started;
  }

  settled-IsValid : (b : Bool) (a : ProviderState) → IsValid a → IsValid (settled b a)
  settled-IsValid true a v = record {
    seed = v.seed;
    jitter = v.jitter;
    spacing = v.spacing;
    backoff = omega arith;
    sorted = v.sorted;
    started = v.started;
  }
  settled-IsValid false a v = IsValid-of_same a (settled false a) (ground arith) v

  finished-IsValid :
      (o : BandwidthOpportunity) (reserved successful : Bool) (a : ProviderState)
      → IsValid a
      → IsValid (finished c p now o reserved successful a)
  unfolding finished
  finished-IsValid o reserved successful a v =
      let b = settled successful a in
      let cleared = clear_pending-IsValid o.interface b (settled-IsValid successful a v) in
      elim (Bool-cases (not (is_scheduled o.reason))) [
        | inl e ↦ rw e (replan-IsValid (clear_pending o.interface b) cleared)
        | inr e ↦ elim (Bool-cases reserved) [
          | inl e' ↦
              rw (e, e') (IsValid-of_same (clear_pending o.interface b) _ (ground arith) cleared)
          | inr e' ↦ rw (e, e') cleared
        ]
      ]

  own_deadline-IsValid :
      (limit : Option Instant) (a : ProviderState)
      → IsValid a
      → IsValid (own_deadline c p now limit a).0
  own_deadline-IsValid none a v = next_backoff-IsValid a v
  own_deadline-IsValid (some d) a v = v

  cool-IsValid :
      (o : BandwidthOpportunity) (reserved : Bool) (limit : RateLimit) (deadline : Instant)
      (a : ProviderState)
      → IsValid a
      → IsValid (cool c now o reserved limit deadline a)
  unfolding cool
  cool-IsValid o reserved limit deadline a v = record {
    seed = v.seed;
    jitter = v.jitter;
    spacing = v.spacing;
    backoff = ground arith;
    sorted = v.sorted;
    started = v.started;
  }

  limited-IsValid :
      (o : BandwidthOpportunity) (reserved : Bool) (limit : RateLimit) (a : ProviderState)
      → IsValid a
      → IsValid (rate_limited c p now o reserved limit a).0
  unfolding rate_limited
  limited-IsValid o reserved limit a v =
      let own = own_deadline c p now limit.deadline a in
      let deadline = no_earlier (own.0).cooldown_until_utc own.1 in
      let cooling = cool c now o reserved limit deadline own.0 in
      replan-IsValid (clear_pending o.interface cooling) (
        clear_pending-IsValid o.interface cooling
          (cool-IsValid o reserved limit deadline own.0 (own_deadline-IsValid limit.deadline a v)))

  pub Change-IsValid : {a b : ProviderState} → Change c p now a b → IsValid a → IsValid b
  unfolding latch disarm clear_expired
  Change-IsValid same v = v
  Change-IsValid (observe {a = a}) v = observed-IsValid a v
  Change-IsValid (reconcile {a = a}) v = reconcile_day-IsValid a v
  Change-IsValid (raise {a = a} why interface expires) v =
      IsValid-of_same a (latch why interface now expires a) (ground arith) v
  Change-IsValid (rearm {a = a} interface) v =
      IsValid-of_same a (disarm interface a) (ground arith) v
  Change-IsValid (expire {a = a} expired) v =
      IsValid-of_same a (clear_expired expired a) (ground arith) v
  Change-IsValid (abandon {a = a}) v =
      IsValid-of_same a (record a { deferred = none }) (ground arith) v
  Change-IsValid (block {a = a} due terminal pending) v =
      IsValid-of_same a _ (block-SameBooks now due terminal pending a) v
  Change-IsValid (start {a = a} due why) v = IsValid-of_same a _ (start-SameBooks now due why a) v
  Change-IsValid (booked {a = a} _) v = book-IsValid now a v
  Change-IsValid (limited {a = a} o reserved limit) v = limited-IsValid o reserved limit a v
  Change-IsValid (finish {a = a} o reserved successful) v =
      finished-IsValid o reserved successful a v
  Change-IsValid (chain x y) v = Change-IsValid y (Change-IsValid x v)
