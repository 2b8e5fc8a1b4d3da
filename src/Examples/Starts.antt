-- ===== src/Examples/Starts.antt =====
-- The caps, the spacing and the reservations at concrete inputs.
use netband.Base.{◌*◌, ◌≤◌, ◌≡◌, ◌⊎◌, inr, refl, count_if, none, some, List, [], ◌∷◌, arith}
use netband.Chrono.{Instant}
use netband.Chrono.Utc.{utc, utc-IsChrono}
use netband.Model.{
  SchedulerAction, SchedulerReason, Outcome, TriggerReason, Message, MeasurementEvent,
}
use netband.Scheduler.Types.{SchedulerPoll, Reservation, admission}
use netband.Scheduler.Store.{Scheduler, Providers, Result, ok, err, ◌>>=◌, save, reply}
use netband.Scheduler.Admission.{on_day, block_reason, runs_on_day, event, no_context}
use netband.Scheduler.Clock.{reconcile_day, advance_clock}
use netband.Scheduler.Reserve.{book, reserve_run}
use netband.Scheduler.Reserve.Outcomes.{Granted, Refused, reserve_run-Granted, reserve_run-Refused}
use netband.Scheduler.Poll.Select.{expired_triggers, oldest_eligible, due_slot, remove_due_slots}
use netband.Scheduler.Poll.{poll_interfaces}
use netband.Scheduler.Poll.Laws.{IsRetry}
use netband.Scheduler.Poll.Reserve.{IsRollback, poll_offer, poll_then_reserve, poll_rolled_back}
use netband.Scheduler.Trace.{Call, reserves, polls, preflights, run}
use netband.Scheduler.Trace.Admitted.{IsSpaced}
use netband.Scheduler.Trace.Quota.{Ordered, daily_starts_capped, admitted_starts_spaced}
use netband.Examples.Fixtures.{
  memory, policy, second, idle, due, late, full, first_start, scheduled_offer,
}

abbrev calls : List (Instant × Call)
calls =
    (6 * second, polls [])
    ∷ (6 * second, reserves)
    ∷ (7 * second, reserves)
    ∷ (20 * second, preflights)
    ∷ (21 * second, reserves)
    ∷ (40 * second, reserves)
    ∷ []

abbrev offer : SchedulerPoll
offer = record {
  opportunity = some scheduled_offer;
  events =
      event utc policy (record idle { last_observed_utc = 6 * second }) "r" (6 * second)
        Outcome.scheduled TriggerReason.scheduled no_context SchedulerAction.bandwidth_start
        SchedulerReason.opportunity_ready Message.bandwidth_start
      ∷ [];
}

calls-Ordered : Ordered 0 calls
calls-Ordered = ground arith

daily_starts_capped_example : count_if (on_day utc 0) (run utc memory "r" calls (due, [])).1 ≤ 2
daily_starts_capped_example =
    daily_starts_capped utc utc-IsChrono memory "r" 2 0 calls due (inr (refl, refl, omega arith))
      (omega arith) calls-Ordered 0

admitted_starts_spaced_example : IsSpaced utc (10 * second) (run utc memory "r" calls (due, [])).1
admitted_starts_spaced_example =
    admitted_starts_spaced utc utc-IsChrono memory "r" 0 calls due refl (omega arith) (omega arith)
      calls-Ordered

abbrev polled : Scheduler Providers × Result SchedulerPoll
polled = poll_interfaces utc memory "r" (6 * second) [] due

offered : polled.1 ≡ ok offer
unfolding poll_interfaces ◌>>=◌ advance_clock save reply expired_triggers reconcile_day
    oldest_eligible due_slot block_reason runs_on_day remove_due_slots
offered = refl

polled-deferred : polled.0.state.deferred ≡ none
unfolding poll_interfaces ◌>>=◌ advance_clock save reply expired_triggers reconcile_day
    oldest_eligible due_slot block_reason runs_on_day remove_due_slots
polled-deferred = refl

poll_offer_example :
    IsRetry polled.0.state (6 * second) scheduled_offer
    ⊎ (block_reason utc polled.0.policy polled.0.state (6 * second) ≡ none)
poll_offer_example =
    poll_offer utc memory "r" (6 * second) [] due offer scheduled_offer offered refl

poll_then_reserve_example :
    (r : Reservation) × ((reserve_run utc memory (6 * second) polled.0).1 ≡ ok r)
poll_then_reserve_example =
    poll_then_reserve utc memory "r" (6 * second) [] due offer scheduled_offer offered refl
      polled-deferred refl

poll_rolled_back_example :
    (e : MeasurementEvent) × (poll_interfaces utc memory "r" second [] late
      ≡ (late, ok (record { opportunity = none; events = e ∷ [] })))
    × IsRollback utc memory "r" second late e
poll_rolled_back_example = poll_rolled_back utc memory "r" second [] late refl

reserved : (reserve_run utc memory (6 * second) due).1 ≡ ok first_start
unfolding reserve_run reconcile_day block_reason runs_on_day save reply book
reserved = refl

reserve_run-Granted_example :
    Granted utc memory (6 * second) due (reserve_run utc memory (6 * second) due).0 first_start
reserve_run-Granted_example = reserve_run-Granted utc memory (6 * second) due first_start reserved

refused : (reserve_run utc memory (40 * second) full).1 ≡ err (admission (Message.daily_cap 2 2))
unfolding reserve_run reconcile_day block_reason runs_on_day
refused = refl

reserve_run-Refused_example :
    Refused utc memory
      (40 * second)
      full
      (reserve_run utc memory (40 * second) full).0
      (admission (Message.daily_cap 2 2))
reserve_run-Refused_example =
    reserve_run-Refused utc memory (40 * second) full (admission (Message.daily_cap 2 2)) refused
