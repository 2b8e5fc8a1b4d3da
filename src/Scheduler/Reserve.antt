-- ===== src/Scheduler/Reserve.antt =====
-- src/scheduler.rs: `reserve_run`, which books a start, and `preflight_manual`, which asks whether a
-- manual start would be let through.
pub mod Moves
pub mod Laws
pub mod Booking
pub mod Outcomes
use netband.Base.{
  ℕ, max, Bool, true, false, Option, none, some, List, [], ◌∷◌, ◌++◌, String, ltb, if◌then◌else◌,
  sort, last,
}
use netband.Chrono.{Chrono, Instant}
use netband.Model.{Outcome, TriggerReason, MeasurementEvent}
use netband.Scheduler.Types.{
  ProviderState, BlockReason, ManualDecision, allowed, blocked, Reservation, admission,
}
use netband.Scheduler.Admission.{runs_on_day, block_reason, event, new_context}
use netband.Scheduler.Store.{Storage, Scheduler, M, err, ◌>>=◌, save, reply}
use netband.Scheduler.Clock.{reconcile_day, advance_clock}

-- `last_started_at_utc.max(Some(now))`.
abbrev pub latest_start : Option Instant → Instant → Option Instant
latest_start none now = some now
latest_start (some t) now = some (max t now)

-- The start is recorded among the runs, which are sorted again.
unfoldable pub book : Instant → ProviderState → ProviderState
book now state = record state {
  runs = sort (state.runs ++ now ∷ []);
  last_started_at_utc = latest_start state.last_started_at_utc now;
  last_observed_utc = max state.last_observed_utc now;
}

module _ {D : Type 0} (c : Chrono) (w : Storage D) where
  admit : Instant → Option BlockReason → M D Reservation
  admit now (some b) s = (s, err (admission b.message))
  admit now none s =
      let starts = runs_on_day c (book now s.state) (c.date_naive now) in
      let reservation : Reservation = record {
        accounting_date = c.date_naive now;
        daily_bandwidth_starts = starts;
      } in
      save w (book now) (reply λ _. reservation) s

  unfoldable pub reserve_run : Instant → M D Reservation
  unfolding admit
  reserve_run now s =
      let state = reconcile_day c s.policy s.state now in
      admit now (block_reason c s.policy state now) (record s { state = state })

  manual_block : String → Instant → Option BlockReason → M D ManualDecision
  manual_block run_id now none = reply λ _. allowed
  manual_block run_id now (some b) = reply λ s. blocked (
      event c s.policy s.state run_id now Outcome.suppressed TriggerReason.manual
        (new_context (some b.kind) b.cooldown_until) b.action b.reason b.message)

  -- `clock_events.pop()`, and the event is returned if the clock went back.
  manual_decision : String → Instant → Option MeasurementEvent → M D ManualDecision
  unfolding manual_block
  manual_decision run_id now none s =
      manual_block run_id now (block_reason c s.policy s.state now) s
  manual_decision run_id now (some e) s =
      if ltb now s.state.last_observed_utc
      then reply (λ _. blocked e) s
      else manual_block run_id now (block_reason c s.policy s.state now) s

  unfoldable pub preflight_manual : String → Instant → M D ManualDecision
  unfolding manual_decision
  preflight_manual run_id now = do
    clock_events ← advance_clock c w run_id now
    manual_decision run_id now (last clock_events)
