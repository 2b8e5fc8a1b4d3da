-- ===== src/Scheduler/Reserve/Laws.antt =====
-- What `reserve_run` of src/scheduler.rs does: when it succeeds, and when it refuses.
use netband.Base.{◌≡◌, refl, Option, none, some, inl, inr, ◌⊎◌, arith}
use netband.Chrono.{Chrono, Instant}
use netband.Scheduler.Types.{Reservation, BlockReason, SchedulerError, admission, ProviderState}
use netband.Scheduler.Admission.{block_reason, runs_on_day}
use netband.Scheduler.Clock.{reconcile_day}
use netband.Scheduler.Reserve.{book, admit, reserve_run}
use netband.Scheduler.Store.{
  Storage, Scheduler, Result, ok, err, save, persist, reply, store, Providers,
}

pub result_cases :
    {A : Type 0} (r : Result A) → ((a : A) × (r ≡ ok a)) ⊎ ((x : SchedulerError) × (r ≡ err x))
result_cases (ok a) = inl (a, refl)
result_cases (err x) = inr (x, refl)

-- The state in which a start at `now` is booked, and the store that is written then.
abbrev pub booked_state : {D : Type 0} → Chrono → Instant → Scheduler D → ProviderState
booked_state c now s = book now (reconcile_day c s.policy s.state now)

abbrev pub booked_store : {D : Type 0} → Chrono → Instant → Scheduler D → Providers
booked_store c now s = store (record s { state = booked_state c now s })

module _ {D : Type 0} (c : Chrono) (w : Storage D) where
  admit-ok :
      (now : Instant) (s : Scheduler D) (b : Option BlockReason) (r : Reservation)
      → (admit c w now b s).1 ≡ ok r
      → (b ≡ none)
        × ((admit c w now b s).0.state ≡ book now s.state)
        × ((w.write s.disk (store (record s { state = book now s.state }))).1 ≡ ok tt)
        × (r.accounting_date ≡ c.date_naive now)
        × (r.daily_bandwidth_starts ≡ runs_on_day c (book now s.state) (c.date_naive now))
  unfolding admit save persist reply
  admit-ok now s b r h = ground arith

  admit-err :
      (now : Instant) (s : Scheduler D) (b : Option BlockReason) (x : SchedulerError)
      → (admit c w now b s).1 ≡ err x
      → ((r : BlockReason) × (b ≡ some r) × (x ≡ admission r.message) × ((admit c w now b s).0 ≡ s))
        ⊎ ((b ≡ none)
            × ((w.write s.disk (store (record s { state = book now s.state }))).1 ≡ err x))
  unfolding admit save persist reply
  admit-err now s (some r) x h = inl (r, refl, ground arith, refl)
  admit-err now s none x h = inr (refl, ground arith)

  -- Of a reservation that succeeds: the policy let the start through, the state holds it, the
  -- write of the store with the start in it returned no error, and the reservation has the day and
  -- the number of its runs.
  pub reserve_run-ok :
      (now : Instant) (s : Scheduler D) (r : Reservation)
      → (reserve_run c w now s).1 ≡ ok r
      → (block_reason c s.policy (reconcile_day c s.policy s.state now) now ≡ none)
        × ((reserve_run c w now s).0.state ≡ booked_state c now s)
        × ((w.write s.disk (booked_store c now s)).1 ≡ ok tt)
        × (r.accounting_date ≡ c.date_naive now)
        × (r.daily_bandwidth_starts ≡ runs_on_day c (booked_state c now s) (c.date_naive now))
  unfolding reserve_run
  reserve_run-ok now s r h =
      admit-ok now (record s { state = reconcile_day c s.policy s.state now }) _ r h

  pub reserve_run-disk :
      (now : Instant) (s : Scheduler D) (r : Reservation)
      → (reserve_run c w now s).1 ≡ ok r
      → (reserve_run c w now s).0.disk ≡ (w.write s.disk (booked_store c now s)).0
  unfolding reserve_run admit save persist reply
  reserve_run-disk now s r h = ground arith

  -- Of a reservation that fails: the policy blocks the start, the error has its message, and only
  -- the new day, if there is one, changes the object; or the policy lets the start through and the
  -- write of the booked start fails with that error.
  pub reserve_run-err :
      (now : Instant) (s : Scheduler D) (x : SchedulerError)
      → (reserve_run c w now s).1 ≡ err x
      → ((b : BlockReason) × (block_reason c s.policy (reconcile_day c s.policy s.state now) now
            ≡ some b)
          × (x ≡ admission b.message)
          × ((reserve_run c w now s).0 ≡ record s { state = reconcile_day c s.policy s.state now }))
        ⊎ ((block_reason c s.policy (reconcile_day c s.policy s.state now) now ≡ none)
            × ((w.write s.disk (booked_store c now s)).1 ≡ err x))
  unfolding reserve_run
  reserve_run-err now s x h =
      admit-err now (record s { state = reconcile_day c s.policy s.state now }) _ x h
