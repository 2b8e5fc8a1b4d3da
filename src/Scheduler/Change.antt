-- ===== src/Scheduler/Change.antt =====
-- The transitions that the methods of src/scheduler.rs make on a provider's state: one constructor
-- for each primitive change. Every method is a path of these (the Moves files), so that a
-- property of the state is proved once for each change.
pub mod Rules
pub mod Runs
pub mod Validity
pub mod Preserve
use netband.Base.{ℕ, Bool, Option, none, List, String, ◌≡◌}
use netband.Chrono.{Chrono, Instant}
use netband.Model.{TriggerReason}
use netband.Scheduler.Types.{
  ProviderState, SchedulerPolicy, PendingTrigger, BandwidthOpportunity, RateLimit,
}
use netband.Scheduler.Admission.{block_reason}
use netband.Scheduler.Clock.{observed, reconcile_day}
use netband.Scheduler.Trigger.{latch, disarm}
use netband.Scheduler.Reserve.{book}
use netband.Scheduler.Poll.{after_block, after_start}
use netband.Scheduler.Poll.Select.{clear_expired}
use netband.Scheduler.Attempt.{rate_limited, finished}

pub data Change (c : Chrono) (policy : SchedulerPolicy) (now : Instant)
    : ProviderState → ProviderState → Type 0 where
  same : {a : ProviderState} → Change c policy now a a
  observe : {a : ProviderState} → Change c policy now a (observed c policy now a)
  reconcile : {a : ProviderState} → Change c policy now a (reconcile_day c policy a now)
  raise :
      {a : ProviderState} (why : TriggerReason) (interface : Option String) (expires : Instant)
      → Change c policy now a (latch why interface now expires a)
  rearm :
      {a : ProviderState} (interface : Option String) → Change c policy now a (disarm interface a)
  expire :
      {a : ProviderState} (expired : List (String × PendingTrigger))
      → Change c policy now a (clear_expired expired a)
  abandon : {a : ProviderState} → Change c policy now a (record a { deferred = none })
  block :
      {a : ProviderState} (due terminal : Bool) (pending : Option (String × PendingTrigger))
      → Change c policy now a (after_block now due terminal pending a)
  start :
      {a : ProviderState} (due : Bool) (why : TriggerReason)
      → Change c policy now a (after_start now due why a)
  -- A start is booked only where the policy lets it through.
  booked :
      {a : ProviderState} → block_reason c policy a now ≡ none → Change c policy now a (book now a)
  limited :
      {a : ProviderState} (o : BandwidthOpportunity) (reserved : Bool) (limit : RateLimit)
      → Change c policy now a (rate_limited c policy now o reserved limit a).0
  finish :
      {a : ProviderState} (o : BandwidthOpportunity) (reserved successful : Bool)
      → Change c policy now a (finished c policy now o reserved successful a)
  chain :
      {a b d : ProviderState}
      → Change c policy now a b
      → Change c policy now b d
      → Change c policy now a d
