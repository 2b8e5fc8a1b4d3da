-- ===== src/Scheduler/Reserve/Moves.antt =====
-- `reserve_run` and `preflight_manual` as paths of changes.
use netband.Base.{refl, ◌≡◌, Bool-cases, inl, inr, String, Option, none, some, ltb, last}
use netband.Chrono.{Chrono, Instant}
use netband.Model.{MeasurementEvent}
use netband.Scheduler.Types.{BlockReason, SchedulerPolicy}
use netband.Scheduler.Store.{Storage, Scheduler}
use netband.Scheduler.Admission.{block_reason}
use netband.Scheduler.Change.{same, reconcile, booked, chain}
use netband.Scheduler.Change.Rules.{Does, DoesAt, Moves-save, Does-reply, Does-bind, Does-at}
use netband.Scheduler.Clock.{advance_clock, reconcile_day}
use netband.Scheduler.Clock.Moves.{advance_clock-Moves}
use netband.Scheduler.Reserve.{
  book, admit, reserve_run, manual_block, manual_decision, preflight_manual,
}

module _ {D : Type 0} (c : Chrono) (w : Storage D) where
  admit-Moves :
      (now : Instant) (b : Option BlockReason) (s : Scheduler D)
      → block_reason c s.policy s.state now ≡ b
      → DoesAt c now (admit c w now b) s
  unfolding admit
  admit-Moves now (some b) s e = (same, refl)
  admit-Moves now none s e =
      Moves-save c s.policy now w (book now) _ s refl (booked e) (Does-reply c s.policy now _)

  pub reserve_run-Moves : (now : Instant) (s : Scheduler D) → DoesAt c now (reserve_run c w now) s
  unfolding reserve_run
  reserve_run-Moves now s =
      let state = reconcile_day c s.policy s.state now in
      let m =
        admit-Moves now (block_reason c s.policy state now) (record s { state = state }) refl in
      (chain reconcile m.0, m.1)

  manual_block-Does :
      (p : SchedulerPolicy) (run_id : String) (now : Instant) (b : Option BlockReason)
      → Does c p now (manual_block c w run_id now b)
  unfolding manual_block
  manual_block-Does p run_id now none = Does-reply c p now _
  manual_block-Does p run_id now (some b) = Does-reply c p now _

  manual_decision-Moves :
      (run_id : String) (now : Instant) (e : Option MeasurementEvent) (s : Scheduler D)
      → DoesAt c now (manual_decision c w run_id now e) s
  unfolding manual_decision
  manual_decision-Moves run_id now none s = manual_block-Does s.policy run_id now _ s refl
  manual_decision-Moves run_id now (some e) s =
      elim (Bool-cases (ltb now s.state.last_observed_utc)) [
        | inl back ↦ rw back (Does-reply c s.policy now _ s refl)
        | inr on ↦ rw on (manual_block-Does s.policy run_id now _ s refl)
      ]

  pub preflight_manual-Moves :
      (run_id : String) (now : Instant) (s : Scheduler D)
      → DoesAt c now (preflight_manual c w run_id now) s
  unfolding preflight_manual
  preflight_manual-Moves run_id now s =
      let clock = advance_clock c w run_id now in
      Does-bind c s.policy now clock _
        (Does-at c s.policy now clock (advance_clock-Moves c w run_id now))
        (λ events.
          Does-at c s.policy now (manual_decision c w run_id now (last events))
            (manual_decision-Moves run_id now (last events)))
        s refl
