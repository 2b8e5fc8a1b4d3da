-- ===== src/Scheduler/Clock/Moves.antt =====
-- `advance_clock` as a path of changes.
use netband.Base.{refl, ltb, Bool-cases, inl, inr, String}
use netband.Chrono.{Chrono, Instant}
use netband.Scheduler.Store.{Storage, Scheduler}
use netband.Scheduler.Change.{same, observe}
use netband.Scheduler.Change.Rules.{DoesAt, Does-save, Does-reply}
use netband.Scheduler.Clock.{observed, advance_clock}

module _ {D : Type 0} (c : Chrono) (w : Storage D) where
  pub advance_clock-Moves :
      (run_id : String) (now : Instant) (s : Scheduler D)
      → DoesAt c now (advance_clock c w run_id now) s
  unfolding advance_clock
  advance_clock-Moves run_id now s = elim (Bool-cases (ltb now s.state.last_observed_utc)) [
    | inl back ↦ rw back (same, refl)
    | inr on ↦ rw on (
        Does-save c s.policy now w (observed c s.policy now) _ (λ a. observe)
          (Does-reply c s.policy now _) s refl)
  ]
