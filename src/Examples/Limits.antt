-- ===== src/Examples/Limits.antt =====
-- Rate limits, triggers and the health window at concrete inputs.
use netband.Base.{◌*◌, ◌+◌, ◌≡◌, ◌↔◌, refl, true, false, none, some, String, List, [], ◌∷◌, All}
use netband.Chrono.{Instant}
use netband.Chrono.Utc.{utc}
use netband.Dict.{Dict, get}
use netband.Model.{
  ProviderKind, RequestStage, EventKind, Outcome, TriggerReason, MeasurementEvent, new_event,
}
use netband.Scheduler.Types
use netband.Scheduler.Types.{
  PendingTrigger, InterfaceTriggerState, DeferredOpportunity, BandwidthOpportunity,
}
use netband.Scheduler.Time.{day_end}
use netband.Scheduler.Admission.Laws.{NotBefore}
use netband.Scheduler.Trigger.{clear_pending}
use netband.Scheduler.Clock.{replan_remaining}
use netband.Scheduler.Poll.Select.{oldest_eligible, oldest, eligible}
use netband.Scheduler.Poll.Oldest.{Holds, Oldest, oldest_eligible-Oldest}
use netband.Scheduler.Attempt.{cool, rate_limited}
use netband.Scheduler.Attempt.RateLimit.{rate_limit_from_report}
use netband.Scheduler.Attempt.Detection.{IsRateLimit, rate_limit_from_report-none_iff}
use netband.Scheduler.Attempt.Laws.{IsDeferral, rate_limited_cooldown, rate_limited-IsDeferral}
use netband.Examples.Fixtures.{policy, second, idle, scheduled_offer}

-- The provider asks for thirty seconds.
abbrev limit : Types.RateLimit
limit = record {
  deadline = some (36 * second);
  stage = RequestStage.locate;
  status = some 429;
  retry_after = some 30_000;
}

abbrev now : Instant
now = 6 * second

rate_limited_cooldown_example :
    ((rate_limited utc policy now scheduled_offer false limit idle).0.cooldown_until_utc
      ≡ some (rate_limited utc policy now scheduled_offer false limit idle).1)
    × NotBefore none (rate_limited utc policy now scheduled_offer false limit idle).1
    × NotBefore
        (some (36 * second))
        (rate_limited utc policy now scheduled_offer false limit idle).1
rate_limited_cooldown_example =
    rate_limited_cooldown utc policy now scheduled_offer false limit idle

abbrev deferred : DeferredOpportunity
deferred = record {
  scheduled_at_utc = some (5 * second);
  reason = TriggerReason.scheduled;
  interface = none;
  created_at_utc = 6 * second;
  expires_at_utc = 86_400 * second;
  rate_limit_attempts = 1;
}

defers : (rate_limited utc policy now scheduled_offer false limit idle).0.deferred ≡ some deferred
unfolding rate_limited replan_remaining clear_pending cool day_end
defers = refl

rate_limited-IsDeferral_example :
    (false ≡ false)
    × IsDeferral utc now scheduled_offer
        (rate_limited utc policy now scheduled_offer false limit idle).1
        none
        deferred
rate_limited-IsDeferral_example =
    rate_limited-IsDeferral utc policy now scheduled_offer false limit idle deferred defers

abbrev report : List MeasurementEvent
report =
    record (new_event "r" EventKind.request_failure Outcome.error now) {
      request_stage = some RequestStage.locate;
      request_http_status = some 503;
    }
    ∷ []

rate_limit_from_report-none_iff_example :
    (rate_limit_from_report ProviderKind.mlab report ≡ none)
    ↔ All (λ e. IsRateLimit ProviderKind.mlab e → ⊥) report
rate_limit_from_report-none_iff_example = rate_limit_from_report-none_iff ProviderKind.mlab report

abbrev trigger_at : Instant → InterfaceTriggerState
trigger_at t = record {
  pending = some (record {
    reason = TriggerReason.ping_loss;
    created_at_utc = t;
    expires_at_utc = t + 60 * second;
  });
  latched = true;
}

abbrev triggers : Dict InterfaceTriggerState
triggers = ("eth0", trigger_at 2_000_000_000) ∷ ("wlan0", trigger_at 1_000_000_000) ∷ []

abbrev oldest_trigger : String × PendingTrigger
oldest_trigger = (
  "wlan0",
  record {
    reason = TriggerReason.ping_loss;
    created_at_utc = second;
    expires_at_utc = 61 * second;
  },
)

selects : oldest_eligible (("wlan0", true) ∷ []) true triggers ≡ some oldest_trigger
unfolding oldest_eligible oldest eligible get
selects = refl

oldest_eligible-Oldest_example :
    Holds (("wlan0", true) ∷ []) true oldest_trigger triggers
    × Oldest (("wlan0", true) ∷ []) true oldest_trigger triggers
oldest_eligible-Oldest_example =
    oldest_eligible-Oldest (("wlan0", true) ∷ []) true triggers oldest_trigger selects
