-- ===== src/Scheduler/Attempt/Laws.antt =====
-- What a rate limit does to the state, from `finish_attempt` of src/scheduler.rs.
use netband.Base.{
  ℕ, ◌+◌, ◌/◌, ◌^◌, ◌≤◌, ◌<◌, ◌≡◌, subst, refl, Bool, true, false, Option, none, some, arith,
}
use netband.Chrono.{Chrono, Instant}
use netband.Scheduler.Types
use netband.Scheduler.Types.{
  ProviderState, SchedulerPolicy, DeferredOpportunity, BandwidthOpportunity, InterfaceTriggerState,
}
use netband.Scheduler.Time.{day_end}
use netband.Scheduler.Random.Laws.{jitter_duration_bounds}
use netband.Scheduler.Admission.Laws.{NotBefore}
use netband.Scheduler.Clock.{replan_remaining}
use netband.Scheduler.Trigger.{clear_pending, set_trigger}
use netband.Scheduler.Poll.{max_rate_limit_attempts}
use netband.Scheduler.Attempt.{
  backoff_base, next_backoff, own_deadline, no_earlier, deferral, cool, rate_limited, next_attempts,
}

-- The opportunity is kept for another try, before the end of the day and after the cooldown.
pub record IsDeferral (c : Chrono) (now : Instant) (o : BandwidthOpportunity) (until : Instant)
    (held : Option DeferredOpportunity) (d : DeferredOpportunity) : Type 0 where
  pub same :
      (d.reason ≡ o.reason)
      × (d.interface ≡ o.interface)
      × (d.scheduled_at_utc ≡ o.scheduled_at_utc)
      × (d.created_at_utc ≡ o.requested_at_utc)
  pub expiry : d.expires_at_utc ≡ day_end c (c.date_naive now)
  pub room : until < d.expires_at_utc
  pub attempts :
      (d.rate_limit_attempts ≡ next_attempts held)
      × (d.rate_limit_attempts < max_rate_limit_attempts)

-- A base backoff is never above the policy's maximum, whatever the step.
backoff_base_bounds : (p : SchedulerPolicy) (step : ℕ) → backoff_base p step ≤ p.cooldown_max
unfolding backoff_base
backoff_base_bounds p step = ground arith

deferral-IsDeferral :
    (c : Chrono) (now : Instant) (o : BandwidthOpportunity) (until : Instant)
    (held : Option DeferredOpportunity) (d : DeferredOpportunity)
    → deferral o (next_attempts held) until (day_end c (c.date_naive now)) ≡ some d
    → IsDeferral c now o until held d
deferral-IsDeferral c now o until held d h = record {
  same = (ground arith, ground arith, ground arith, ground arith);
  expiry = ground arith;
  room = ground arith;
  attempts = (ground arith, ground arith);
}

own_deadline_lem :
    (c : Chrono) (p : SchedulerPolicy) (now : Instant) (own : Option Instant) (a : ProviderState)
    → let b = own_deadline c p now own a in
      NotBefore own b.1
      × (b.0.cooldown_until_utc ≡ a.cooldown_until_utc)
      × (b.0.deferred ≡ a.deferred)
unfolding next_backoff
own_deadline_lem c p now none a = (tt, refl, refl)
own_deadline_lem c p now (some d) a = (omega arith, refl, refl)

no_earlier_bounds :
    (existing own : Option Instant) (d : Instant)
    → NotBefore own d
    → NotBefore existing (no_earlier existing d) × NotBefore own (no_earlier existing d)
no_earlier_bounds none own d h = (tt, h)
no_earlier_bounds (some t) none d h = (omega arith, tt)
no_earlier_bounds (some t) (some u) d h = (omega arith, omega arith)

module _ (c : Chrono) (p : SchedulerPolicy) (now : Instant) (o : BandwidthOpportunity) where
  -- After a rate limit the cooldown is the deadline that is reported: no earlier than the provider's
  -- own, and no earlier than a cooldown that was already set.
  pub rate_limited_cooldown :
      (reserved : Bool) (limit : Types.RateLimit) (a : ProviderState)
      → let after = rate_limited c p now o reserved limit a in
        (after.0.cooldown_until_utc ≡ some after.1)
        × NotBefore a.cooldown_until_utc after.1
        × NotBefore limit.deadline after.1
  unfolding rate_limited replan_remaining clear_pending set_trigger cool
  rate_limited_cooldown reserved limit a =
      let own = own_deadline c p now limit.deadline a in
      let (own_le, same_cooldown, _) = own_deadline_lem c p now limit.deadline a in
      let bounds = no_earlier_bounds own.0.cooldown_until_utc limit.deadline own.1 own_le in
      (
        refl,
        subst (λ t. NotBefore t (no_earlier own.0.cooldown_until_utc own.1)) same_cooldown bounds.0,
        bounds.1,
      )

  -- An opportunity is deferred by a rate limit only if nothing was reserved for it, under the attempt
  -- limit and with the cooldown over before the day is, when the deferral expires.
  pub rate_limited-IsDeferral :
      (reserved : Bool) (limit : Types.RateLimit) (a : ProviderState) (d : DeferredOpportunity)
      → (rate_limited c p now o reserved limit a).0.deferred ≡ some d
      → (reserved ≡ false)
        × IsDeferral c now o (rate_limited c p now o reserved limit a).1 a.deferred d
  unfolding rate_limited replan_remaining clear_pending set_trigger cool
  rate_limited-IsDeferral true limit a d h = absurd (ground arith)
  rate_limited-IsDeferral false limit a d h =
      let own = own_deadline c p now limit.deadline a in
      let until = no_earlier own.0.cooldown_until_utc own.1 in
      let same = (own_deadline_lem c p now limit.deadline a).2 in
      (
        refl,
        deferral-IsDeferral c now o until a.deferred d (
            subst
              (λ held.
                deferral o (next_attempts held) until (day_end c (c.date_naive now)) ≡ some d)
              same h),
      )

-- The backoff that stands in for a missing deadline exceeds the policy's maximum by at most a fifth,
-- in whole milliseconds, where that maximum is of less than 2^63 ms.
pub next_backoff_bound :
    (p : SchedulerPolicy) (a : ProviderState)
    → p.cooldown_max / 1_000_000 < 2 ^ 63
    → let most = p.cooldown_max / 1_000_000 in (next_backoff p a).1 / 1_000_000 ≤ most + most / 5
unfolding next_backoff
next_backoff_bound p a h =
    let base = backoff_base p a.backoff_step in
    let below = backoff_base_bounds p a.backoff_step in
    omega (arith, below, h, (jitter_duration_bounds a.rng_state base (omega (arith, below, h))).1)
