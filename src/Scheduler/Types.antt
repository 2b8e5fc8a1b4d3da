-- ===== src/Scheduler/Types.antt =====
-- src/scheduler.rs: the persisted state of a provider, the policy, and the values that the
-- scheduler's methods take and return.
use netband.Base.{ℕ, Bool, Option, List, String}
use netband.Chrono.{Instant, Day, Duration}
use netband.Dict.{Dict}
use netband.Model.{
  SchedulerAction, SchedulerReason, ErrorKind, TriggerReason, ProviderKind, RequestStage, Outcome,
  Message, MeasurementEvent,
}

pub record DeferredOpportunity : Type 0 where
  pub scheduled_at_utc : Option Instant
  pub reason : TriggerReason
  pub interface : Option String
  pub created_at_utc : Instant
  pub expires_at_utc : Instant
  pub rate_limit_attempts : ℕ

pub record PendingTrigger : Type 0 where
  pub reason : TriggerReason
  pub created_at_utc : Instant
  pub expires_at_utc : Instant

pub record InterfaceTriggerState : Type 0 where
  pub pending : Option PendingTrigger
  pub latched : Bool

pub record ProviderState : Type 0 where
  pub day_utc : Day
  pub slots : List Instant
  pub runs : List Instant
  pub last_started_at_utc : Option Instant
  pub cooldown_until_utc : Option Instant
  pub backoff_step : ℕ
  pub deferred : Option DeferredOpportunity
  pub interface_triggers : Dict InterfaceTriggerState
  pub policy_daily_max : ℕ
  pub policy_min_spacing_ms : ℕ
  pub policy_slot_jitter_pct : ℕ
  pub rng_state : ℕ
  pub last_observed_utc : Instant

pub record SchedulerPolicy : Type 0 where
  pub provider_id : String
  pub provider_kind : ProviderKind
  pub force_limits : Bool
  pub daily_max : ℕ
  pub min_spacing : Duration
  pub slot_jitter_pct : ℕ
  pub pending_ttl : Duration
  pub cooldown_initial : Duration
  pub cooldown_max : Duration

pub record BandwidthOpportunity : Type 0 where
  pub reason : TriggerReason
  pub scheduled_at_utc : Option Instant
  pub requested_at_utc : Instant
  pub interface : Option String

pub record SchedulerPoll : Type 0 where
  pub opportunity : Option BandwidthOpportunity
  pub events : List MeasurementEvent

pub data ManualDecision : Type 0 where
  allowed : ManualDecision
  blocked : MeasurementEvent → ManualDecision

pub record Reservation : Type 0 where
  pub accounting_date : Day
  pub daily_bandwidth_starts : ℕ

-- `BandwidthReport` of src/bandwidth.rs.
pub record BandwidthReport : Type 0 where
  pub events : List MeasurementEvent
  pub outcome : Outcome
  pub reserved : Bool
  pub reservation_error : Option String

pub record BlockReason : Type 0 where
  pub action : SchedulerAction
  pub reason : SchedulerReason
  pub kind : ErrorKind
  pub cooldown_until : Option Instant
  pub message : Message

pub record EventContext : Type 0 where
  pub error_kind : Option ErrorKind
  pub cooldown_until : Option Instant
  pub interface : Option String

pub record RateLimit : Type 0 where
  pub deadline : Option Instant
  pub stage : RequestStage
  pub status : Option ℕ
  pub retry_after : Option ℕ  -- in milliseconds

pub data IoErrorKind : Type 0 where
  permission_denied other : IoErrorKind

pub data SchedulerError : Type 0 where
  io : String → IoErrorKind → SchedulerError
  corrupt : String → String → SchedulerError
  unsupported_schema : ℕ → SchedulerError
  admission : Message → SchedulerError
  locked : String → SchedulerError
