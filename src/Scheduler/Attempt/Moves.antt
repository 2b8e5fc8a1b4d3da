-- ===== src/Scheduler/Attempt/Moves.antt =====
-- `finish_attempt` as a path of changes.
use netband.Base.{refl, String, Option, none, some}
use netband.Chrono.{Chrono, Instant}
use netband.Scheduler.Types
use netband.Scheduler.Types.{SchedulerPolicy, BandwidthOpportunity, BandwidthReport}
use netband.Scheduler.Store.{Storage, Scheduler}
use netband.Scheduler.Change.{limited, finish}
use netband.Scheduler.Change.Rules.{DoesAt, Does-save, Does-reply}
use netband.Scheduler.Attempt.RateLimit.{rate_limit_from_report, successful_request}
use netband.Scheduler.Attempt.{finish_limited, finish_plain, finish_with, finish_attempt}

module _ {D : Type 0} (c : Chrono) (w : Storage D) where
  finish_with-Moves :
      (run_id : String) (now : Instant) (o : BandwidthOpportunity) (report : BandwidthReport)
      (limit : Option Types.RateLimit) (s : Scheduler D)
      → DoesAt c now (finish_with c w run_id now o report limit) s
  unfolding finish_with finish_limited finish_plain
  finish_with-Moves run_id now o report none s =
      Does-save c s.policy now w _ _
        (λ a. finish o report.reserved (successful_request report.events))
        (Does-reply c s.policy now _) s refl
  finish_with-Moves run_id now o report (some limit) s =
      Does-save c s.policy now w _ _ (λ a. limited o report.reserved limit)
        (Does-reply c s.policy now _) s refl

  pub finish_attempt-Moves :
      (run_id : String) (now : Instant) (o : BandwidthOpportunity) (report : BandwidthReport)
      (s : Scheduler D)
      → DoesAt c now (finish_attempt c w run_id now o report) s
  unfolding finish_attempt
  finish_attempt-Moves run_id now o report s =
      finish_with-Moves run_id now o report
        (rate_limit_from_report s.policy.provider_kind report.events) s
