-- ===== src/Scheduler/Trace/Quota.antt =====
-- The caps and the spacing over any history of calls.
use netband.Base.{
  ℕ, ◌≤◌, ◌<◌, ◌≡◌, refl, sym, ◌∙◌, List, [], ◌∷◌, false, arith, String, count_if, inr, ◌^◌,
}
use mathlib.Core.Path.{subst}
use netband.Chrono.{Chrono, IsChrono, Instant, Day}
use netband.Scheduler.Types.{SchedulerPolicy, Reservation}
use netband.Scheduler.Admission.{on_day}
use netband.Scheduler.Admission.Laws.{Admissible, block_reason-none_iff}
use netband.Scheduler.Clock.{reconcile_day}
use netband.Scheduler.Reserve.{reserve_run}
use netband.Scheduler.Reserve.Laws.{reserve_run-ok}
use netband.Scheduler.Reserve.Moves.{reserve_run-Moves, preflight_manual-Moves}
use netband.Scheduler.Trigger.Moves.{observe_interface_health-Moves}
use netband.Scheduler.Poll.Moves.{poll_interfaces-Moves}
use netband.Scheduler.Attempt.Moves.{finish_attempt-Moves}
use netband.Scheduler.Store.{Storage, Scheduler, Result, ok, err}
use netband.Scheduler.Change.{reconcile}
use netband.Scheduler.Change.Rules.{Moves}
use netband.Scheduler.Change.Runs.{Accounts, Change-Accounts}
use netband.Scheduler.Trace.{
  Call, observes, polls, preflights, reserves, finishes, admitted, step, run,
}
use netband.Scheduler.Trace.Admitted.{
  IsCap, IsSpaced, admitted-Accounts, admitted_capped, admitted-IsSpaced,
}

-- The clock readings of the calls do not go back, from `t` on.
abbrev pub Ordered : Instant → List (Instant × Call) → Type 0
Ordered t [] = Unit
Ordered t ((now, call) ∷ calls) = (t ≤ now) × Ordered now calls

module _ {D : Type 0} (c : Chrono) (laws : IsChrono c) (p : SchedulerPolicy) (cap : ℕ) where
  -- What holds of the scheduler and the starts so far, at time `t`.
  pub record Within (t : Instant) (s : Scheduler D) (h : List Instant) : Type 0 where
    pub policy : s.policy ≡ p
    pub accounts : Accounts c t s.state h
    pub capped : (d : Day) → count_if (on_day c d) h ≤ cap
    pub spaced : p.force_limits ≡ false → IsSpaced c p.min_spacing h

  -- A call that books no start.
  Moves-Within :
      (t now : Instant) (s u : Scheduler D) (h : List Instant)
      → t ≤ now
      → Moves c s.policy now s u
      → Within t s h
      → Within now u h
  Moves-Within t now s u h le m v = record {
    policy = m.1 ∙ v.policy;
    accounts = Change-Accounts c laws s.policy now t h le m.0 v.accounts;
    capped = v.capped;
    spaced = v.spaced;
  }

  -- The state just before a start is booked.
  ready-Accounts :
      (t now : Instant) (s : Scheduler D) (h : List Instant)
      → t ≤ now
      → Within t s h
      → Accounts c now (reconcile_day c s.policy s.state now) h
  ready-Accounts t now s h le v = Change-Accounts c laws s.policy now t h le reconcile v.accounts

  reserved-Within :
      (w : Storage D) (t now : Instant) (s : Scheduler D) (h : List Instant)
      → IsCap p cap
      → t ≤ now
      → Within t s h
      → (r : Result Reservation) → (reserve_run c w now s).1 ≡ r
      → Within now (reserve_run c w now s).0 (admitted now r h)
  reserved-Within w t now s h is_cap le v (err x) e =
      Moves-Within t now s (reserve_run c w now s).0 h le (reserve_run-Moves c w now s) v
  reserved-Within w t now s h is_cap le v (ok r) e =
      let state = reconcile_day c s.policy s.state now in
      let done = reserve_run-ok c w now s r e in
      let before = ready-Accounts t now s h le v in
      let fit = (block_reason-none_iff c s.policy state now).0 done.0 in
      let fit' : Admissible c p state now = subst (λ q. Admissible c q state now) v.policy fit in
      record {
        policy = (reserve_run-Moves c w now s).1 ∙ v.policy;
        accounts =
            subst (λ a. Accounts c now a (now ∷ h)) (sym done.1)
              (admitted-Accounts c laws p now state h before);
        capped = admitted_capped c laws p now cap state h is_cap fit' before v.capped;
        spaced = λ free. admitted-IsSpaced c laws p now state h free fit' before (v.spaced free);
      }

  module _ (w : Storage D) (run_id : String) (is_cap : IsCap p cap) where
    step-Within :
        (t now : Instant) (call : Call) (s : Scheduler D) (h : List Instant)
        → t ≤ now
        → Within t s h
        → Within now (step c w run_id now call (s, h)).0 (step c w run_id now call (s, h)).1
    unfolding step
    step-Within t now (observes interface decision) s h le v =
        Moves-Within t now s _ h le
          (observe_interface_health-Moves c w run_id now interface decision s) v
    step-Within t now (polls latest) s h le v =
        Moves-Within t now s _ h le (poll_interfaces-Moves c w run_id now latest s) v
    step-Within t now preflights s h le v =
        Moves-Within t now s _ h le (preflight_manual-Moves c w run_id now s) v
    step-Within t now reserves s h le v = reserved-Within w t now s h is_cap le v _ refl
    step-Within t now (finishes o report) s h le v =
        Moves-Within t now s _ h le (finish_attempt-Moves c w run_id now o report s) v

    run-capped :
        (t : Instant) (calls : List (Instant × Call)) (s : Scheduler D) (h : List Instant)
        → Ordered t calls
        → Within t s h
        → ((d : Day) → count_if (on_day c d) (run c w run_id calls (s, h)).1 ≤ cap)
          × (p.force_limits ≡ false → IsSpaced c p.min_spacing (run c w run_id calls (s, h)).1)
    unfolding run
    run-capped t [] s h o v = (v.capped, v.spaced)
    run-capped t ((now, call) ∷ calls) s h o v =
        let next = step c w run_id now call (s, h) in
        run-capped now calls next.0 next.1 o.1 (step-Within t now call s h o.0 v)

module _ {D : Type 0} (c : Chrono) (laws : IsChrono c) (w : Storage D) (run_id : String) where
  start-Within :
      (t : Instant) (s : Scheduler D) (cap : ℕ)
      → s.state.day_utc ≤ c.date_naive t
      → Within c laws s.policy cap t s []
  start-Within t s cap h = record {
    policy = refl;
    accounts = record { current = h; kept = λ d le. omega arith; latest = tt };
    capped = λ d. omega arith;
    spaced = λ free. tt;
  }

  -- From a scheduler whose day is not ahead of the clock, and while the clock does not go back, no
  -- history of calls, with any failed writes, admits more starts on any UTC day than the cap: four
  -- for M-Lab, forced or not, and the configured 32-bit maximum where limits are not forced.
  pub daily_starts_capped :
      (cap : ℕ) (t : Instant) (calls : List (Instant × Call)) (s : Scheduler D)
      → IsCap s.policy cap
      → s.state.day_utc ≤ c.date_naive t
      → Ordered t calls
      → (d : Day) → count_if (on_day c d) (run c w run_id calls (s, [])).1 ≤ cap
  daily_starts_capped cap t calls s is_cap h o =
      (run-capped c laws s.policy cap w run_id is_cap t calls s [] o (start-Within t s cap h)).0

  -- From a scheduler whose day is not ahead of the clock, with limits not forced and a 32-bit
  -- daily maximum, and while the clock does not go back, each start that any history of calls
  -- admits comes at least the minimum spacing after the start admitted before it.
  pub admitted_starts_spaced :
      (t : Instant) (calls : List (Instant × Call)) (s : Scheduler D)
      → s.policy.force_limits ≡ false
      → s.policy.daily_max < 2 ^ 32
      → s.state.day_utc ≤ c.date_naive t
      → Ordered t calls
      → IsSpaced c s.policy.min_spacing (run c w run_id calls (s, [])).1
  admitted_starts_spaced t calls s free fits h o =
      let cap = s.policy.daily_max in
      (run-capped c laws s.policy cap w run_id (inr (free, refl, fits)) t calls s [] o
          (start-Within t s cap h)).1
        free
