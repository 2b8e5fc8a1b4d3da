-- ===== src/Scheduler/Poll/Laws.antt =====
-- What `poll_interfaces` of src/scheduler.rs offers.
use netband.Base.{
  ◌<◌, ◌≡◌, ◌⊎◌, refl, ◌∙◌, Bool, true, Bool-cases, inl, inr, Option, none, some, List, ◌++◌,
  String, arith, ltb, leb, ◌||◌, ◌&&◌, not,
}
use netband.Chrono.{Chrono, Instant}
use netband.Dict.{Dict}
use netband.Model.{MeasurementEvent, TriggerReason}
use netband.Scheduler.Types.{
  ProviderState, SchedulerPolicy, PendingTrigger, BlockReason, DeferredOpportunity,
  BandwidthOpportunity, SchedulerPoll,
}
use netband.Scheduler.Store.{
  Storage, Scheduler, M, Result, ok, err, continue, ◌>>=◌, save, reply, persist,
}
use netband.Scheduler.Admission.{block_reason, runs_on_day}
use netband.Scheduler.Trigger.{is_some}
use netband.Scheduler.Poll.Select.{due_slot, oldest_eligible, remove_due_slots, remove_first_slot}
use netband.Scheduler.Poll.{
  after_start, max_rate_limit_attempts, cooled, block_opportunity, start_opportunity,
  poll_candidate, poll_due, report_dropped, drop_deferred, poll_deferred, poll_current, poll_ready,
  poll_observed, poll_interfaces,
}

-- The offer repeats the deferred opportunity, which may still be tried.
pub record IsRetry (a : ProviderState) (now : Instant) (o : BandwidthOpportunity) : Type 0 where
  pub d : DeferredOpportunity
  pub held : a.deferred ≡ some d
  pub same :
      (o.reason ≡ d.reason)
      × (o.interface ≡ d.interface)
      × (o.scheduled_at_utc ≡ d.scheduled_at_utc)
      × (o.requested_at_utc ≡ d.created_at_utc)
  pub open_day : now < d.expires_at_utc
  pub attempts : d.rate_limit_attempts < max_rate_limit_attempts
  pub cool : cooled now a.cooldown_until_utc ≡ true

-- An opportunity on offer is a retry, or the policy lets it start.
abbrev pub Sound :
    Chrono → Instant → ProviderState → SchedulerPolicy → Option BandwidthOpportunity → Type 0
Sound c now a p none = Unit
Sound c now a p (some o) = IsRetry a now o ⊎ (block_reason c p a now ≡ none)

abbrev pub Offers : {D : Type 0} → Chrono → Instant → Scheduler D × Result SchedulerPoll → Type 0
Offers c now (t, err e) = Unit
Offers c now (t, ok poll) = Sound c now t.state t.policy poll.opportunity

block_reason-after_start :
    (c : Chrono) (p : SchedulerPolicy) (a : ProviderState) (now : Instant) (due : Bool)
    (why : TriggerReason)
    → block_reason c p (after_start now due why a) now ≡ block_reason c p a now
unfolding block_reason runs_on_day remove_due_slots remove_first_slot
block_reason-after_start c p a now due why = ground arith

module _ {D : Type 0} (c : Chrono) (now : Instant) where
  Offers-continue :
      {A : Type 0} (f : A → M D SchedulerPoll) (r : Scheduler D × Result A)
      → ((a : A) → Offers c now (f a r.0))
      → Offers c now (continue f r)
  Offers-continue f (t, ok a) h = h a
  Offers-continue f (t, err e) h = tt

  Offers-bind :
      {A : Type 0} (m : M D A) (f : A → M D SchedulerPoll) (s : Scheduler D)
      → ((a : A) (t : Scheduler D) → Offers c now (f a t))
      → Offers c now ((m >>= f) s)
  unfolding ◌>>=◌
  Offers-bind m f s h = Offers-continue f (m s) (λ a. h a (m s).0)

  Offers-save :
      (w : Storage D) (f : ProviderState → ProviderState) (next : M D SchedulerPoll)
      (s : Scheduler D)
      → ((t : Scheduler D) → t.state ≡ f s.state → t.policy ≡ s.policy → Offers c now (next t))
      → Offers c now (save w f next s)
  unfolding save persist
  Offers-save w f next s h =
      let written = persist w (record s { state = f s.state }) in
      Offers-continue (λ _. next) written (λ _. h written.0 refl refl)

module _ {D : Type 0} (c : Chrono) (w : Storage D) (run_id : String) (now : Instant) where
  poll_candidate-Offers :
      (events : List MeasurementEvent) (due : Option Instant)
      (pending : Option (String × PendingTrigger)) (b : Option BlockReason) (s : Scheduler D)
      → block_reason c s.policy s.state now ≡ b
      → Offers c now (poll_candidate c w run_id now events due pending b s)
  unfolding poll_candidate block_opportunity start_opportunity reply
  poll_candidate-Offers events due pending (some b) s e =
      Offers-save c now w _ _ s (λ t same_state same_policy. tt)
  poll_candidate-Offers events due pending none s e =
      Offers-save c now w _ _ s (λ t same_state same_policy. inr (
        rw (same_state, same_policy)
          (block_reason-after_start c s.policy s.state now (is_some due) _ ∙ e)))

  poll_due-Offers :
      (latest : Dict Bool) (events : List MeasurementEvent) (s : Scheduler D)
      → Offers c now (poll_due c w run_id now latest events s)
  unfolding poll_due reply
  poll_due-Offers latest events s =
      let due = due_slot now s.state in
      let pending = oldest_eligible latest (is_some due) s.state.interface_triggers in
      elim (Bool-cases (not (is_some pending) && not (is_some due))) [
        | inl idle ↦ rw idle tt
        | inr busy ↦
            rw busy (
              poll_candidate-Offers events due pending (block_reason c s.policy s.state now) s refl)
      ]

  drop_deferred-Offers :
      (latest : Dict Bool) (events : List MeasurementEvent) (d : DeferredOpportunity)
      (s : Scheduler D)
      → Offers c now (drop_deferred c w run_id now latest events d s)
  unfolding drop_deferred report_dropped
  drop_deferred-Offers latest events d s =
      Offers-save c now w _ _ s (λ t same_state same_policy. poll_due-Offers latest _ t)

  poll_deferred-Offers :
      (latest : Dict Bool) (events : List MeasurementEvent) (d : Option DeferredOpportunity)
      (s : Scheduler D)
      → s.state.deferred ≡ d
      → Offers c now (poll_deferred c w run_id now latest events d s)
  unfolding poll_deferred reply
  poll_deferred-Offers latest events none s held = poll_due-Offers latest events s
  poll_deferred-Offers latest events (some d) s held =
      elim (Bool-cases
        (leb d.expires_at_utc now || leb max_rate_limit_attempts d.rate_limit_attempts)) [
          | inl over ↦ rw over (drop_deferred-Offers latest events d s)
          | inr on ↦ elim (Bool-cases (cooled now s.state.cooldown_until_utc)) [
            | inl ready ↦
                rw (on, ready)
                  (inl (record {
                    d = d;
                    held = held;
                    same = (refl, refl, refl, refl);
                    open_day = ground arith;
                    attempts = ground arith;
                    cool = ready;
                  }))
            | inr wait ↦ rw (on, wait) (poll_due-Offers latest events s)
          ]
        ]

  poll_ready-Offers :
      (latest : Dict Bool) (events : List MeasurementEvent) (s : Scheduler D)
      → Offers c now (poll_ready c w run_id now latest events s)
  unfolding poll_ready poll_current
  poll_ready-Offers latest events s =
      Offers-bind c now _ _ s
        (λ more t. poll_deferred-Offers latest (events ++ more) t.state.deferred t refl)

  poll_observed-Offers :
      (latest : Dict Bool) (events : List MeasurementEvent) (s : Scheduler D)
      → Offers c now (poll_observed c w run_id now latest events s)
  unfolding poll_observed reply
  poll_observed-Offers latest events s = elim (Bool-cases (ltb now s.state.last_observed_utc)) [
    | inl back ↦ rw back tt
    | inr on ↦ rw on (poll_ready-Offers latest events s)
  ]

  pub poll_interfaces-Offers :
      (latest : Dict Bool) (s : Scheduler D)
      → Offers c now (poll_interfaces c w run_id now latest s)
  unfolding poll_interfaces
  poll_interfaces-Offers latest s =
      Offers-bind c now _ _ s (λ events t. poll_observed-Offers latest events t)
