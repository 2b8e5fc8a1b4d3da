-- ===== src/Scheduler/Trace.antt =====
-- A scheduler in use: the calls that src/lib.rs and src/monitor.rs make of it, one after another,
-- and the starts that it admits. A call that fails is followed by the next one, as in a program
-- that goes on after an error; the file system may fail any write.
pub mod Admitted
pub mod Quota
pub mod Valid
use netband.Base.{ℕ, Bool, Option, List, [], ◌∷◌, String}
use netband.Chrono.{Chrono, Instant}
use netband.Dict.{Dict}
use netband.Health.{HealthDecision}
use netband.Scheduler.Types.{BandwidthOpportunity, BandwidthReport}
use netband.Scheduler.Store.{Storage, Scheduler, Result, ok, err}
use netband.Scheduler.Trigger.{observe_interface_health}
use netband.Scheduler.Reserve.{reserve_run, preflight_manual}
use netband.Scheduler.Poll.{poll_interfaces}
use netband.Scheduler.Attempt.{finish_attempt}

pub data Call : Type 0 where
  observes : Option String → HealthDecision → Call
  polls : Dict Bool → Call
  preflights : Call
  reserves : Call
  finishes : BandwidthOpportunity → BandwidthReport → Call

-- The starts, newest first, with that of a reservation that succeeded.
abbrev pub admitted : {A : Type 0} → Instant → Result A → List Instant → List Instant
admitted now (ok _) starts = now ∷ starts
admitted now (err _) starts = starts

module _ {D : Type 0} (c : Chrono) (w : Storage D) (run_id : String) where
  unfoldable pub step : Instant → Call → Scheduler D × List Instant → Scheduler D × List Instant
  step now (observes interface decision) (s, starts) =
      ((observe_interface_health c w run_id now interface decision s).0, starts)
  step now (polls latest) (s, starts) = ((poll_interfaces c w run_id now latest s).0, starts)
  step now preflights (s, starts) = ((preflight_manual c w run_id now s).0, starts)
  step now reserves (s, starts) = let (t, r) = reserve_run c w now s in (t, admitted now r starts)
  step now (finishes o report) (s, starts) = ((finish_attempt c w run_id now o report s).0, starts)

  unfoldable pub run :
      List (Instant × Call) → Scheduler D × List Instant → Scheduler D × List Instant
  run [] at = at
  run ((now, call) ∷ calls) at = run calls (step now call at)
