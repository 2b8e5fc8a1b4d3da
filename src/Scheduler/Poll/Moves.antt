-- ===== src/Scheduler/Poll/Moves.antt =====
-- `poll_interfaces` as a path of changes.
use netband.Base.{
  refl, Bool, Bool-cases, inl, inr, List, [], ◌∷◌, ◌++◌, String, Option, none, some, ltb, leb, ◌||◌,
  ◌&&◌, not,
}
use netband.Chrono.{Chrono, Instant}
use netband.Dict.{Dict}
use netband.Model.{MeasurementEvent}
use netband.Scheduler.Types.{SchedulerPolicy, PendingTrigger, BlockReason, DeferredOpportunity}
use netband.Scheduler.Store.{Storage, Scheduler}
use netband.Scheduler.Admission.{block_reason}
use netband.Scheduler.Change.{expire, abandon, block, start}
use netband.Scheduler.Change.Rules.{Does, DoesAt, Does-save, Does-reply, Does-bind, Does-at}
use netband.Scheduler.Clock.{advance_clock}
use netband.Scheduler.Clock.Moves.{advance_clock-Moves}
use netband.Scheduler.Trigger.{is_some}
use netband.Scheduler.Poll.Select.{expired_triggers, due_slot, oldest_eligible}
use netband.Scheduler.Poll.{
  max_rate_limit_attempts, cooled, block_opportunity, start_opportunity, poll_candidate, poll_due,
  drop_deferred, poll_deferred, report_dropped, poll_current, poll_observed, expire_triggers,
  poll_ready, poll_interfaces,
}

module _ {D : Type 0} (c : Chrono) (w : Storage D) where
  poll_candidate-Moves :
      (run_id : String) (now : Instant) (events : List MeasurementEvent) (due : Option Instant)
      (pending : Option (String × PendingTrigger)) (b : Option BlockReason) (s : Scheduler D)
      → DoesAt c now (poll_candidate c w run_id now events due pending b) s
  unfolding poll_candidate block_opportunity start_opportunity
  poll_candidate-Moves run_id now events due pending (some b) s =
      Does-save c s.policy now w _ _ (λ a. block (is_some due) _ pending)
        (Does-reply c s.policy now _) s refl
  poll_candidate-Moves run_id now events due pending none s =
      Does-save c s.policy now w _ _ (λ a. start (is_some due) _) (Does-reply c s.policy now _) s
        refl

  poll_due-Moves :
      (run_id : String) (now : Instant) (latest : Dict Bool) (events : List MeasurementEvent)
      (s : Scheduler D)
      → DoesAt c now (poll_due c w run_id now latest events) s
  unfolding poll_due
  poll_due-Moves run_id now latest events s =
      let due = due_slot now s.state in
      let pending = oldest_eligible latest (is_some due) s.state.interface_triggers in
      elim (Bool-cases (not (is_some pending) && not (is_some due))) [
        | inl idle ↦ rw idle (Does-reply c s.policy now _ s refl)
        | inr busy ↦ rw busy (
            poll_candidate-Moves run_id now events due pending (block_reason c s.policy s.state now)
              s)
      ]

  report_dropped-Moves :
      (run_id : String) (now : Instant) (latest : Dict Bool) (events : List MeasurementEvent)
      (d : DeferredOpportunity) (s : Scheduler D)
      → DoesAt c now (report_dropped c w run_id now latest events d) s
  unfolding report_dropped
  report_dropped-Moves run_id now latest events d s = poll_due-Moves run_id now latest _ s

  drop_deferred-Moves :
      (run_id : String) (now : Instant) (latest : Dict Bool) (events : List MeasurementEvent)
      (d : DeferredOpportunity) (s : Scheduler D)
      → DoesAt c now (drop_deferred c w run_id now latest events d) s
  unfolding drop_deferred
  drop_deferred-Moves run_id now latest events d s =
      let report = report_dropped c w run_id now latest events d in
      Does-save c s.policy now w _ report (λ a. abandon)
        (Does-at c s.policy now report (report_dropped-Moves run_id now latest events d)) s refl

  poll_deferred-Moves :
      (run_id : String) (now : Instant) (latest : Dict Bool) (events : List MeasurementEvent)
      (d : Option DeferredOpportunity) (s : Scheduler D)
      → DoesAt c now (poll_deferred c w run_id now latest events d) s
  unfolding poll_deferred
  poll_deferred-Moves run_id now latest events none s = poll_due-Moves run_id now latest events s
  poll_deferred-Moves run_id now latest events (some d) s =
      elim (Bool-cases
        (leb d.expires_at_utc now || leb max_rate_limit_attempts d.rate_limit_attempts)) [
          | inl over ↦ rw over (drop_deferred-Moves run_id now latest events d s)
          | inr on ↦ elim (Bool-cases (cooled now s.state.cooldown_until_utc)) [
            | inl ready ↦ rw (on, ready) (Does-reply c s.policy now _ s refl)
            | inr wait ↦ rw (on, wait) (poll_due-Moves run_id now latest events s)
          ]
        ]

  poll_current-Moves :
      (run_id : String) (now : Instant) (latest : Dict Bool) (events : List MeasurementEvent)
      (s : Scheduler D)
      → DoesAt c now (poll_current c w run_id now latest events) s
  unfolding poll_current
  poll_current-Moves run_id now latest events s =
      poll_deferred-Moves run_id now latest events s.state.deferred s

  expire_triggers-Does :
      (p : SchedulerPolicy) (run_id : String) (now : Instant)
      (expired : List (String × PendingTrigger))
      → Does c p now (expire_triggers c w run_id now expired)
  unfolding expire_triggers
  expire_triggers-Does p run_id now [] = Does-reply c p now _
  expire_triggers-Does p run_id now (e ∷ es) =
      Does-save c p now w _ _ (λ a. expire (e ∷ es)) (Does-reply c p now _)

  poll_ready-Moves :
      (run_id : String) (now : Instant) (latest : Dict Bool) (events : List MeasurementEvent)
      (s : Scheduler D)
      → DoesAt c now (poll_ready c w run_id now latest events) s
  unfolding poll_ready
  poll_ready-Moves run_id now latest events s =
      let expired = expired_triggers now s.state.interface_triggers in
      Does-bind c s.policy now (expire_triggers c w run_id now expired) _
        (expire_triggers-Does s.policy run_id now expired)
        (λ more.
          Does-at c s.policy now (poll_current c w run_id now latest (events ++ more))
            (poll_current-Moves run_id now latest (events ++ more)))
        s refl

  pub poll_observed-Moves :
      (run_id : String) (now : Instant) (latest : Dict Bool) (events : List MeasurementEvent)
      (s : Scheduler D)
      → DoesAt c now (poll_observed c w run_id now latest events) s
  unfolding poll_observed
  poll_observed-Moves run_id now latest events s =
      elim (Bool-cases (ltb now s.state.last_observed_utc)) [
        | inl back ↦ rw back (Does-reply c s.policy now _ s refl)
        | inr on ↦ rw on (poll_ready-Moves run_id now latest events s)
      ]

  pub poll_interfaces-Moves :
      (run_id : String) (now : Instant) (latest : Dict Bool) (s : Scheduler D)
      → DoesAt c now (poll_interfaces c w run_id now latest) s
  unfolding poll_interfaces
  poll_interfaces-Moves run_id now latest s =
      let clock = advance_clock c w run_id now in
      Does-bind c s.policy now clock _
        (Does-at c s.policy now clock (advance_clock-Moves c w run_id now))
        (λ events.
          Does-at c s.policy now (poll_observed c w run_id now latest events)
            (poll_observed-Moves run_id now latest events))
        s refl
