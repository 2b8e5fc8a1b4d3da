-- ===== src/Examples/Gates.antt =====
-- The reservation gate at a concrete input.
use netband.Base.{◌*◌, ◌≡◌, refl, true, false, none, [], ◌∷◌, All}
use netband.Chrono.Utc.{utc}
use netband.Model.{EventKind, Outcome, new_event}
use netband.Scheduler.Types.{BandwidthReport}
use netband.Scheduler.Store.{ok, save, reply}
use netband.Scheduler.Admission.{runs_on_day, block_reason}
use netband.Scheduler.Clock.{reconcile_day}
use netband.Scheduler.Reserve.{reserve_run, book}
use netband.Scheduler.Gate.{AdmissionReservation, reserve, apply_admission}
use netband.Scheduler.Gate.Laws.{Accounted, reserve-Accounted}
use netband.Examples.Fixtures.{memory, second, due}

abbrev report : BandwidthReport
report = record {
  events =
      new_event "r" EventKind.bandwidth Outcome.success (7 * second)
      ∷ new_event "r" EventKind.request_failure Outcome.error (7 * second)
      ∷ [];
  outcome = Outcome.success;
  reserved = false;
  reservation_error = none;
}

granted : (reserve utc memory (6 * second) due).1 ≡ ok (AdmissionReservation.reserved 0 1)
unfolding reserve reserve_run reconcile_day block_reason runs_on_day save reply book
granted = refl

reserve-Accounted_example :
    ((apply_admission report (AdmissionReservation.reserved 0 1)).reserved ≡ true)
    × All
        (Accounted (utc.date_naive (6 * second)) (
          runs_on_day utc
            (reserve utc memory (6 * second) due).0.state
            (utc.date_naive (6 * second))))
        (apply_admission report (AdmissionReservation.reserved 0 1)).events
reserve-Accounted_example =
    reserve-Accounted utc memory (6 * second) due (AdmissionReservation.reserved 0 1) report granted
