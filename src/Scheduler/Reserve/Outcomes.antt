-- ===== src/Scheduler/Reserve/Outcomes.antt =====
-- What a call of `reserve_run` of src/scheduler.rs comes to, described by the state before it.
use netband.Base.{
  ◌≤◌, ◌≡◌, ◌⊎◌, refl, subst, min, inl, inr, none, some, ◌∷◌, arith, count_if, Option,
}
use netband.Base.Sorting.{IsSorted}
use netband.Chrono.{Chrono, Instant}
use netband.Scheduler.Types.{Reservation, BlockReason, SchedulerError, admission}
use netband.Scheduler.Admission.{block_reason, on_day, u32_max}
use netband.Scheduler.Admission.Laws.{Admissible, NotBefore, block_reason-none_iff}
use netband.Scheduler.Clock.{reconcile_day}
use netband.Scheduler.Reserve.{book, admit, reserve_run}
use netband.Scheduler.Reserve.Laws.{result_cases}
use netband.Scheduler.Store.{Storage, Scheduler, Result, ok, err, save, persist, reply, store}
use netband.Scheduler.Reserve.Booking.{
  Counts, Counts-today, reconcile_day-Counts, reconcile_day-last_started, reconcile_day-Admissible,
  book-Counts, book-IsSorted, book-last_started,
}

module _ {D : Type 0} (c : Chrono) (w : Storage D) (now : Instant) (s : Scheduler D) where
  -- A start at `now` was recorded: among the runs from today on, which are sorted, and as the last.
  pub record Booked (after : Scheduler D) : Type 0 where
    pub runs : Counts c now (now ∷ s.state.runs) after.state
    pub order : IsSorted after.state.runs
    pub last_started :
        (t : Instant) × (after.state.last_started_at_utc ≡ some t)
        × (now ≤ t)
        × NotBefore s.state.last_started_at_utc t
    pub written : after.disk ≡ (w.write s.disk (store after)).0

  -- No start was recorded, and nothing was written.
  pub record Unbooked (after : Scheduler D) : Type 0 where
    pub runs : Counts c now s.state.runs after.state
    pub last_started : after.state.last_started_at_utc ≡ s.state.last_started_at_utc
    pub disk : after.disk ≡ s.disk

  abbrev pub Granted : Scheduler D → Reservation → Type 0
  Granted after r =
      Admissible c s.policy s.state now
      × Booked after
      × ((w.write s.disk (store after)).1 ≡ ok tt)
      × (r.accounting_date ≡ c.date_naive now)
      × (r.daily_bandwidth_starts
          ≡ min (count_if (on_day c (c.date_naive now)) (now ∷ s.state.runs)) u32_max)

  abbrev pub Refused : Scheduler D → SchedulerError → Type 0
  Refused after x =
      (Unbooked after
        × (Admissible c s.policy s.state now → ⊥)
        × ((b : BlockReason) × (block_reason c s.policy after.state now ≡ some b)
            × (x ≡ admission b.message)))
      ⊎ (Admissible c s.policy s.state now
          × Booked after
          × ((w.write s.disk (store after)).1 ≡ err x))

  abbrev Reserved : Scheduler D → Result Reservation → Type 0
  Reserved after (ok r) = Granted after r
  Reserved after (err x) = Refused after x

  today-Booked :
      (d : D)
      → d
        ≡ (w.write s.disk
            (store (record s { state = book now (reconcile_day c s.policy s.state now) }))).0
      → Booked (record s { disk = d; state = book now (reconcile_day c s.policy s.state now) })
  today-Booked d e =
      let today = reconcile_day c s.policy s.state now in
      record {
        runs = λ p later. ground (
          arith,
          book-Counts c s.policy now today p later,
          reconcile_day-Counts c s.policy now s.state p later,
        );
        order = book-IsSorted c s.policy now today;
        last_started =
            subst
              (λ o.
                (t : Instant) × ((book now today).last_started_at_utc ≡ some t)
                × (now ≤ t)
                × NotBefore o t)
              (reconcile_day-last_started c s.policy now s.state)
              (book-last_started c s.policy now today);
        written = e;
      }

  today-Unbooked : Unbooked (record s { state = reconcile_day c s.policy s.state now })
  today-Unbooked = record {
    runs = reconcile_day-Counts c s.policy now s.state;
    last_started = reconcile_day-last_started c s.policy now s.state;
    disk = refl;
  }

  admit-Reserved :
      (b : Option BlockReason)
      → block_reason c s.policy (reconcile_day c s.policy s.state now) now ≡ b
      → let r = admit c w now b (record s { state = reconcile_day c s.policy s.state now }) in
        Reserved r.0 r.1
  unfolding admit save persist reply
  admit-Reserved (some b) h =
      let today = reconcile_day c s.policy s.state now in
      let policy = reconcile_day-Admissible c s.policy now s.state in
      inl (
        today-Unbooked,
        λ ok_then.
            ground (arith, (block_reason-none_iff c s.policy today now).1 (policy.1 ok_then), h),
        (b, h, refl),
      )
  admit-Reserved none h =
      let today = reconcile_day c s.policy s.state now in
      let free =
        (reconcile_day-Admissible c s.policy now s.state).0
          ((block_reason-none_iff c s.policy today now).0 h) in
      let next = record s { state = book now today } in
      elim (result_cases (w.write s.disk (store next)).1) [
        | inl (u, e) ↦
            rw (admit, e)
              (
                free,
                today-Booked _ refl,
                e,
                refl,
                Counts-today c s.policy now s.state (now ∷ s.state.runs) (book now today)
                    (today-Booked (w.write s.disk (store next)).0 refl).runs,
              )
        | inr (x, e) ↦ rw (admit, e) (inr (free, today-Booked _ refl, e))
      ]

  reserve_run-Reserved : Reserved (reserve_run c w now s).0 (reserve_run c w now s).1
  unfolding reserve_run
  reserve_run-Reserved =
      admit-Reserved (block_reason c s.policy (reconcile_day c s.policy s.state now) now) refl

  -- A reservation that succeeds was admissible in the state before the call. Its start is then one of
  -- the sorted runs, beside the runs that were there from today on, the last start is no earlier than
  -- it or than the one before, and the store that has it was written without an error. The
  -- reservation has today's date and the number of today's runs, this start included.
  pub reserve_run-Granted :
      (r : Reservation) → (reserve_run c w now s).1 ≡ ok r → Granted (reserve_run c w now s).0 r
  reserve_run-Granted r e = subst (Reserved (reserve_run c w now s).0) e reserve_run-Reserved

  -- A reservation that fails was not admissible in the state before the call: then no run from today
  -- on is added or lost, the last start is the same, nothing is written, and the error is the message
  -- of what blocks. Or it was admissible and the write failed with that error: then the start stays
  -- counted in memory.
  pub reserve_run-Refused :
      (x : SchedulerError) → (reserve_run c w now s).1 ≡ err x → Refused (reserve_run c w now s).0 x
  reserve_run-Refused x e = subst (Reserved (reserve_run c w now s).0) e reserve_run-Reserved
