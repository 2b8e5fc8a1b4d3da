-- ===== src/Scheduler/Gate/Laws.antt =====
-- What a start that went through the gate leaves in its report, from `reserve` of src/scheduler.rs
-- and `apply_admission` of src/bandwidth.rs.
use netband.Base.{
  ℕ, ◌≡◌, ◌⊎◌, refl, sym, ap, subst, ◌∙◌, true, false, Bool-cases, inl, inr, some, List, [], ◌∷◌,
  All, arith,
}
use netband.Chrono.{Chrono, Instant, Day}
use netband.Model.{MeasurementEvent, is_bandwidth}
use netband.Scheduler.Types.{BandwidthReport, Reservation}
use netband.Scheduler.Store.{Storage, Scheduler, Result, ok, err}
use netband.Scheduler.Admission.{runs_on_day}
use netband.Scheduler.Reserve.{reserve_run}
use netband.Scheduler.Reserve.Laws.{reserve_run-ok}
use netband.Scheduler.Gate.{
  AdmissionReservation, reserved, admit_events, apply_admission, admission_of, reserve,
}

-- A bandwidth event says that its start is booked, on which day, and as which start of it.
abbrev pub Accounted : Day → ℕ → MeasurementEvent → Type 0
Accounted day starts e =
    (is_bandwidth e.event_kind ≡ false)
    ⊎ ((e.bandwidth_start_reserved ≡ some true)
        × (e.provider_accounting_date ≡ some day)
        × (e.provider_daily_starts ≡ some starts))

admit_events-Accounted :
    (day : Day) (starts : ℕ) (events : List MeasurementEvent)
    → All (Accounted day starts) (admit_events (reserved day starts) events)
unfolding admit_events
admit_events-Accounted day starts [] = tt
admit_events-Accounted day starts (e ∷ es) =
    let rest = admit_events-Accounted day starts es in
    elim (Bool-cases (is_bandwidth e.event_kind)) [
      | inl measured ↦ rw (admit_events, measured) (inr (refl, refl, refl), rest)
      | inr other ↦ rw (admit_events, other) (inl other, rest)
    ]

module _ {D : Type 0} (c : Chrono) (w : Storage D) where
  admission_of-ok :
      (r : Scheduler D × Result Reservation) (a : AdmissionReservation)
      → (admission_of c w r).1 ≡ ok a
      → (b : Reservation) × (r.1 ≡ ok b)
        × (reserved b.accounting_date b.daily_bandwidth_starts ≡ a)
        × ((admission_of c w r).0 ≡ r.0)
  unfolding admission_of
  admission_of-ok (s, ok b) a h = (b, refl, ground arith, refl)
  admission_of-ok (s, err e) a h = absurd (ground arith)

  -- When the gate grants a start, the report that it is applied to is marked as reserved, and each
  -- of its bandwidth events carries the day of the start and the number of that day's runs in the
  -- state, this one included.
  pub reserve-Accounted :
      (now : Instant) (s : Scheduler D) (a : AdmissionReservation) (report : BandwidthReport)
      → (reserve c w now s).1 ≡ ok a
      → ((apply_admission report a).reserved ≡ true)
        × All
            (Accounted
              (c.date_naive now)
              (runs_on_day c (reserve c w now s).0.state (c.date_naive now)))
            (apply_admission report a).events
  unfolding reserve apply_admission
  reserve-Accounted now s a report h =
      let day = c.date_naive now in
      let (b, booked, same, after) = admission_of-ok (reserve_run c w now s) a h in
      let done = reserve_run-ok c w now s b booked in
      let starts : b.daily_bandwidth_starts ≡ runs_on_day c (reserve c w now s).0.state day =
        done.4
        ∙ (ap (λ x. runs_on_day c x day) (sym done.1)
            ∙ sym (ap (λ t. runs_on_day c t.state day) after)) in
      let given : AdmissionReservation = reserved b.accounting_date b.daily_bandwidth_starts in
      let marked =
        admit_events-Accounted b.accounting_date b.daily_bandwidth_starts report.events in
      let dated =
        subst (λ d. All (Accounted d b.daily_bandwidth_starts) (admit_events given report.events))
          done.3 marked in
      let counted =
        subst (λ n. All (Accounted day n) (admit_events given report.events)) starts dated in
      (
        subst (λ x. (apply_admission report x).reserved ≡ true) same refl,
        subst
            (λ x.
              All (Accounted day (runs_on_day c (reserve c w now s).0.state day))
                (apply_admission report x).events)
            same counted,
      )
