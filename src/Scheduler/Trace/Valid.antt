-- ===== src/Scheduler/Trace/Valid.antt =====
-- The validation of stored state over any history of calls.
use netband.Base.{◌≡◌, ◌<◌, ◌^◌, List, [], ◌∷◌, false, String, str_eq}
use netband.Chrono.{Chrono, Instant}
use netband.Scheduler.Store.{Storage, Scheduler}
use netband.Scheduler.Change.Rules.{Moves}
use netband.Scheduler.Change.Validity.{IsValid, is_invalid, is_invalid-false_iff}
use netband.Scheduler.Change.Preserve.{Change-IsValid}
use netband.Scheduler.Reserve.Moves.{reserve_run-Moves, preflight_manual-Moves}
use netband.Scheduler.Trigger.Moves.{observe_interface_health-Moves}
use netband.Scheduler.Poll.Moves.{poll_interfaces-Moves}
use netband.Scheduler.Attempt.Moves.{finish_attempt-Moves}
use netband.Scheduler.Trace.{Call, observes, polls, preflights, reserves, finishes, step, run}

module _ {D : Type 0} (c : Chrono) (w : Storage D) (run_id : String) where
  pub step-Moves :
      (now : Instant) (call : Call) (s : Scheduler D) (h : List Instant)
      → Moves c s.policy now s (step c w run_id now call (s, h)).0
  unfolding step
  step-Moves now (observes interface decision) s h =
      observe_interface_health-Moves c w run_id now interface decision s
  step-Moves now (polls latest) s h = poll_interfaces-Moves c w run_id now latest s
  step-Moves now preflights s h = preflight_manual-Moves c w run_id now s
  step-Moves now reserves s h = reserve_run-Moves c w now s
  step-Moves now (finishes o report) s h = finish_attempt-Moves c w run_id now o report s

  run-IsValid :
      (calls : List (Instant × Call)) (s : Scheduler D) (h : List Instant)
      → IsValid s.state
      → IsValid (run c w run_id calls (s, h)).0.state
  unfolding run
  run-IsValid [] s h v = v
  run-IsValid ((now, call) ∷ calls) s h v =
      let next = step c w run_id now call (s, h) in
      run-IsValid calls next.0 next.1 (Change-IsValid c s.policy now (step-Moves now call s h).0 v)

  -- From a state that the validation of the store accepts, under a provider name that is not empty
  -- and with a 64-bit `rng_state`, every history of calls, at any clock readings and with any failed
  -- writes, leaves a state that it accepts.
  pub run_accepted :
      (id : String) (calls : List (Instant × Call)) (s : Scheduler D)
      → str_eq id "" ≡ false
      → s.state.rng_state < 2 ^ 64
      → is_invalid id s.state ≡ false
      → is_invalid id (run c w run_id calls (s, [])).0.state ≡ false
  run_accepted id calls s named word accepted =
      let before = (is_invalid-false_iff id s.state named word).0 accepted in
      let after = run-IsValid calls s [] before in
      (is_invalid-false_iff id (run c w run_id calls (s, [])).0.state named after.seed.1).1 after
