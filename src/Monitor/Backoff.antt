-- ===== src/Monitor/Backoff.antt =====
-- The backoff of an interface of src/monitor.rs that cannot be used.
use netband.Base.{ℕ, zero, suc, ◌*◌, ◌^◌, min, ◌≡◌, ap, arith}
use netband.Chrono.{Instant}
use netband.Monitor.{InterfaceRuntime, mark_failed, failure_delay, second_nanos}

module _ {W : Type 0} where
  -- `failures` failures in a row, each at the same time `now`.
  unfoldable pub fail : ℕ → Instant → InterfaceRuntime W → InterfaceRuntime W
  fail zero now r = r
  fail (suc failures) now r = mark_failed now (fail failures now r)

  fail-step :
      (failures : ℕ) (now : Instant) (r : InterfaceRuntime W)
      → r.backoff_step ≡ 0
      → (fail failures now r).backoff_step ≡ min failures 6
  unfolding fail
  fail-step zero now r h = ground (arith, h)
  fail-step (suc failures) now r h = ground (arith, fail-step failures now r h)

  -- After any number of failures in a row, starting from no backoff, the next wait is twice as long
  -- for each failure, and a minute at most.
  pub fail_delay :
      (failures : ℕ) (now : Instant) (r : InterfaceRuntime W)
      → r.backoff_step ≡ 0
      → failure_delay (fail failures now r) ≡ min (2 ^ min failures 6) 60 * second_nanos
  fail_delay failures now r h =
      let once : min (min failures 6) 6 ≡ min failures 6 = ground arith in
      rw (fail-step failures now r h) (ap (λ n. min (2 ^ n) 60 * second_nanos) once)
