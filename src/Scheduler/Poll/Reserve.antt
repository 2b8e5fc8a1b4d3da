-- ===== src/Scheduler/Poll/Reserve.antt =====
-- Polls of src/scheduler.rs: with a clock that went back, and followed by a reservation.
use netband.Base.{
  ◌≤◌, ◌≡◌, ◌≢◌, ◌⊎◌, refl, subst, Bool, true, false, Bool-cases, inl, inr, none, some, [], ◌∷◌,
  String, arith, ltb,
}
use netband.Chrono.{Chrono, Instant}
use netband.Dict.{Dict}
use netband.Scheduler.Types.{
  SchedulerError, SchedulerPolicy, BandwidthOpportunity, SchedulerPoll, Reservation,
}
use netband.Scheduler.Store.{
  Storage, Scheduler, M, Result, ok, err, continue, ◌>>=◌, save, reply, persist,
}
use netband.Scheduler.Admission.{block_reason, runs_on_day, event}
use netband.Model.{
  SchedulerAction, SchedulerReason, EventKind, Outcome, Message, MeasurementEvent, new_event,
}
use netband.Scheduler.Clock.{reconcile_day, advance_clock, rollback_event}
use netband.Scheduler.Change.Rules.{Does, Does-at}
use netband.Scheduler.Change.Runs.{Change-day_le}
use netband.Scheduler.Reserve.{reserve_run}
use netband.Scheduler.Reserve.Laws.{reserve_run-err, booked_store, result_cases}
use netband.Scheduler.Poll.{poll_observed, poll_interfaces}
use netband.Scheduler.Poll.Moves.{poll_observed-Moves}
use netband.Scheduler.Poll.Laws.{IsRetry, poll_interfaces-Offers, Offers, Sound}

module _ {D : Type 0} (c : Chrono) (w : Storage D) (run_id : String) (now : Instant) where
  advance_clock-day :
      (s : Scheduler D)
      → ltb now s.state.last_observed_utc ≡ false
      → c.date_naive now ≤ (advance_clock c w run_id now s).0.state.day_utc
  unfolding advance_clock save reply persist reconcile_day
  advance_clock-day s on = ground arith

  continue-day :
      {A B : Type 0} (p : SchedulerPolicy) (f : A → M D B) (r : Scheduler D × Result A)
      → ((a : A) → Does c p now (f a))
      → r.0.policy ≡ p
      → c.date_naive now ≤ r.0.state.day_utc
      → c.date_naive now ≤ (continue f r).0.state.day_utc
  continue-day p f (t, ok a) does e h = omega (arith, h, Change-day_le c p now (does a t e).0)
  continue-day p f (t, err x) does e h = h

  poll-day :
      (latest : Dict Bool) (s : Scheduler D)
      → ltb now s.state.last_observed_utc ≡ false
      → c.date_naive now ≤ (poll_interfaces c w run_id now latest s).0.state.day_utc
  unfolding poll_interfaces ◌>>=◌
  poll-day latest s on =
      let after = advance_clock c w run_id now s in
      continue-day after.0.policy (λ events. poll_observed c w run_id now latest events) after
        (λ events.
          Does-at c after.0.policy now (poll_observed c w run_id now latest events)
            (poll_observed-Moves c w run_id now latest events))
        refl (advance_clock-day s on)

  poll_back :
      (latest : Dict Bool) (s : Scheduler D)
      → ltb now s.state.last_observed_utc ≡ true
      → poll_interfaces c w run_id now latest s
        ≡ (s, ok (record { opportunity = none; events = rollback_event c w s run_id now ∷ [] }))
  unfolding poll_interfaces ◌>>=◌ advance_clock poll_observed reply
  poll_back latest s back = rw (back, back) refl

  -- The event reports a clock that went back: the time that was observed before and the one that it
  -- reads, with today's accounting.
  pub record IsRollback (s : Scheduler D) (e : MeasurementEvent) : Type 0 where
    pub told :
        (e.scheduler_action ≡ some SchedulerAction.clock_rollback)
        × (e.scheduler_reason ≡ some SchedulerReason.clock_rollback)
        × (e.message ≡ some (Message.clock_rollback s.state.last_observed_utc now))
    pub outcome : (e.event_kind ≡ EventKind.scheduler) × (e.outcome ≡ Outcome.suppressed)
    pub identity :
        (e.run_id ≡ run_id)
        × (e.finished_at_utc ≡ some now)
        × (e.provider_id ≡ some s.policy.provider_id)
        × (e.interface ≡ none)
    pub accounting :
        (e.provider_accounting_date ≡ some (c.date_naive now))
        × (e.provider_daily_starts ≡ some (runs_on_day c s.state (c.date_naive now)))

  rollback_event-IsRollback : (s : Scheduler D) → IsRollback s (rollback_event c w s run_id now)
  unfolding rollback_event event new_event
  rollback_event-IsRollback s = record {
    told = (refl, refl, refl);
    outcome = (refl, refl);
    identity = (refl, refl, refl, refl);
    accounting = (refl, refl);
  }

  -- When the clock reads earlier than the last observation, a poll neither changes nor writes
  -- anything and offers nothing. It returns one event, suppressed, which has the action and the
  -- reason of a rollback, both times and today's accounting.
  pub poll_rolled_back :
      (latest : Dict Bool) (s : Scheduler D)
      → ltb now s.state.last_observed_utc ≡ true
      → (e : MeasurementEvent) × (poll_interfaces c w run_id now latest s
          ≡ (s, ok (record { opportunity = none; events = e ∷ [] })))
        × IsRollback s e
  poll_rolled_back latest s back =
      (rollback_event c w s run_id now, poll_back latest s back, rollback_event-IsRollback s)

  -- An opportunity that a poll offers repeats the deferred opportunity, with its interface, reason
  -- and times, within its day, its attempts and the cooldown; or the policy lets a start through in the state that the poll leaves.
  pub poll_offer :
      (latest : Dict Bool) (s : Scheduler D) (poll : SchedulerPoll) (o : BandwidthOpportunity)
      → (poll_interfaces c w run_id now latest s).1 ≡ ok poll
      → poll.opportunity ≡ some o
      → (let t = (poll_interfaces c w run_id now latest s).0 in
          IsRetry t.state now o ⊎ (block_reason c t.policy t.state now ≡ none))
  poll_offer latest s poll o done offered =
      let after = poll_interfaces c w run_id now latest s in
      let offers : Offers c now (after.0, ok poll) =
        subst (λ r. Offers c now (after.0, r)) done
          (poll_interfaces-Offers c w run_id now latest s) in
      subst (Sound c now after.0.state after.0.policy) offered offers

  reconcile_day-today :
      (s : Scheduler D)
      → c.date_naive now ≤ s.state.day_utc
      → reconcile_day c s.policy s.state now ≡ s.state
  unfolding reconcile_day
  reconcile_day-today s today = ground arith

  not_refused :
      (s : Scheduler D) (x : SchedulerError)
      → c.date_naive now ≤ s.state.day_utc
      → block_reason c s.policy s.state now ≡ none
      → (w.write s.disk (booked_store c now s)).1 ≡ ok tt
      → (reserve_run c w now s).1 ≢ err x
  not_refused s x today free written refused =
      let same = reconcile_day-today s today in
      elim (reserve_run-err c w now s x refused) [
        | inl (b, blocks, why, left) ↦ grind arith
        | inr (let_through, failed) ↦ grind arith
      ]

  reserve_run-free :
      (s : Scheduler D)
      → c.date_naive now ≤ s.state.day_utc
      → block_reason c s.policy s.state now ≡ none
      → (w.write s.disk (booked_store c now s)).1 ≡ ok tt
      → (r : Reservation) × ((reserve_run c w now s).1 ≡ ok r)
  reserve_run-free s today free written = elim (result_cases (reserve_run c w now s).1) [
    | inl done ↦ done
    | inr (x, refused) ↦ elim (not_refused s x today free written refused) [ ]
  ]

  offered_today :
      (latest : Dict Bool) (s : Scheduler D) (poll : SchedulerPoll) (o : BandwidthOpportunity)
      → (poll_interfaces c w run_id now latest s).1 ≡ ok poll
      → poll.opportunity ≡ some o
      → c.date_naive now ≤ (poll_interfaces c w run_id now latest s).0.state.day_utc
  offered_today latest s poll o done offered =
      elim (Bool-cases (ltb now s.state.last_observed_utc)) [
        | inl back ↦ grind (arith, poll_back latest s back)
        | inr on ↦ poll-day latest s on
      ]

  -- Where a poll leaves no deferred opportunity, what it offers is reserved by a call at the same
  -- instant, if the store with the start in it can be written.
  pub poll_then_reserve :
      (latest : Dict Bool) (s : Scheduler D) (poll : SchedulerPoll) (o : BandwidthOpportunity)
      → (poll_interfaces c w run_id now latest s).1 ≡ ok poll
      → poll.opportunity ≡ some o
      → (poll_interfaces c w run_id now latest s).0.state.deferred ≡ none
      → (w.write
          (poll_interfaces c w run_id now latest s).0.disk
          (booked_store c now (poll_interfaces c w run_id now latest s).0)).1
        ≡ ok tt
      → (r : Reservation) × ((reserve_run c w now (poll_interfaces c w run_id now latest s).0).1
          ≡ ok r)
  poll_then_reserve latest s poll o done offered undeferred written =
      elim (poll_offer latest s poll o done offered) [
        | inl retry ↦ grind (arith, retry.held)
        | inr free ↦
            reserve_run-free (poll_interfaces c w run_id now latest s).0
              (offered_today latest s poll o done offered) free written
      ]
