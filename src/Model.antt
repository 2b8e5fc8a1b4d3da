-- ===== src/Model.antt =====
-- src/model.rs: the vocabulary of events, and the part of `MeasurementEvent` that the scheduler
-- and the health window read or write. Identifiers and addresses are opaque texts.
use netband.Base.{ℕ, Bool, true, false, Option, none, some, String}
use netband.Chrono.{Instant, Day}

pub data SchedulerAction : Type 0 where
  trigger_pending trigger_merged_with_deferred trigger_cancelled trigger_expired : SchedulerAction
  deferred_expired bandwidth_start rate_limit clock_rollback suppressed deferred : SchedulerAction
  interface_recovered interface_retry bandwidth_suppressed : SchedulerAction
  bandwidth_interface_skipped : SchedulerAction

pub data SchedulerReason : Type 0 where
  health_degraded health_recovered trigger_ttl_expired day_limit attempt_limit : SchedulerReason
  opportunity_ready provider_rate_limit clock_rollback daily_cap : SchedulerReason
  provider_cooldown minimum_spacing interface_available interface_unavailable : SchedulerReason
  trigger_interface_missing trigger_interface_backoff : SchedulerReason
  trigger_interface_unavailable no_healthy_interface : SchedulerReason

pub data EventKind : Type 0 where
  run_started run_finished ping_probe bandwidth request_failure scheduler : EventKind

pub data Outcome : Type 0 where
  started success partial timeout unreachable permission_denied cancelled error : Outcome
  no_capacity rate_limited scheduled rescheduled deferred suppressed expired : Outcome

pub data TriggerReason : Type 0 where
  scheduled ping_loss ping_rtt manual : TriggerReason

pub data ProviderKind : Type 0 where
  mlab direct : ProviderKind

pub data RequestStage : Type 0 where
  locate dns connect tls websocket_handshake download upload cleanup : RequestStage

pub data ErrorKind : Type 0 where
  icmp_timeout icmp_unreachable permission_denied dns connect tls http_status : ErrorKind
  websocket_handshake download_failed upload_failed provider_cooldown daily_cap : ErrorKind
  cancelled timeout io protocol internal : ErrorKind

-- The derived `PartialEq`, where the code compares with one constructor.
abbrev pub is_bandwidth : EventKind → Bool
is_bandwidth EventKind.bandwidth = true
is_bandwidth _ = false

abbrev pub is_request_failure : EventKind → Bool
is_request_failure EventKind.request_failure = true
is_request_failure _ = false

abbrev pub is_ping_probe : EventKind → Bool
is_ping_probe EventKind.ping_probe = true
is_ping_probe _ = false

abbrev pub is_success : Outcome → Bool
is_success Outcome.success = true
is_success _ = false

abbrev pub is_success_or_partial : Outcome → Bool
is_success_or_partial Outcome.success = true
is_success_or_partial Outcome.partial = true
is_success_or_partial _ = false

abbrev pub is_rate_limited : Outcome → Bool
is_rate_limited Outcome.rate_limited = true
is_rate_limited _ = false

abbrev pub is_scheduled : TriggerReason → Bool
is_scheduled TriggerReason.scheduled = true
is_scheduled _ = false

abbrev pub is_mlab : ProviderKind → Bool
is_mlab ProviderKind.mlab = true
is_mlab ProviderKind.direct = false

abbrev pub is_direct : ProviderKind → Bool
is_direct ProviderKind.mlab = false
is_direct ProviderKind.direct = true

abbrev pub is_locate : RequestStage → Bool
is_locate RequestStage.locate = true
is_locate _ = false

abbrev pub is_websocket_handshake : RequestStage → Bool
is_websocket_handshake RequestStage.websocket_handshake = true
is_websocket_handshake _ = false

abbrev pub is_daily_cap : ErrorKind → Bool
is_daily_cap ErrorKind.daily_cap = true
is_daily_cap _ = false

-- The `matches!` of `Scheduler::event`: kinds that a scheduler event leaves out.
abbrev pub is_policy_kind : ErrorKind → Bool
is_policy_kind ErrorKind.daily_cap = true
is_policy_kind ErrorKind.provider_cooldown = true
is_policy_kind _ = false

-- An `f64`, as its bit pattern.
abbrev pub F64 : Type 0
F64 = ℕ

-- What the `retry_after=` part of a rate-limit message prints.
pub data RetryText : Type 0 where
  fallback unrepresentable : RetryText
  millis : ℕ → RetryText

-- A scheduler message is kept as the values that `format!` prints, one constructor for each text.
pub data Message : Type 0 where
  degraded : F64 → Option F64 → Instant → Message
  health_recovered trigger_ttl day_or_attempt_limit bandwidth_start : Message
  clock_rollback : Instant → Instant → Message
  daily_cap : ℕ → ℕ → Message
  provider_cooldown minimum_spacing : Instant → Message
  rate_limit : RequestStage → Option ℕ → RetryText → Bool → ℕ → Message
  interface_missing interface_backoff no_healthy : Message
  requested_unavailable unavailable text : String → Message

pub record MeasurementEvent : Type 0 where
  pub event_kind : EventKind
  pub run_id : String
  pub scheduled_at_utc : Option Instant
  pub requested_at_utc : Option Instant
  pub finished_at_utc : Option Instant
  pub outcome : Outcome
  pub message : Option Message
  pub interface : Option String
  pub provider_id : Option String
  pub provider_kind : Option ProviderKind
  pub scheduler_action : Option SchedulerAction
  pub scheduler_reason : Option SchedulerReason
  pub trigger_reason : Option TriggerReason
  pub scheduler_not_before_utc : Option Instant
  pub provider_accounting_date : Option Day
  pub provider_daily_starts : Option ℕ
  pub bandwidth_start_reserved : Option Bool
  pub ping_rtt_ms : Option F64
  pub request_stage : Option RequestStage
  pub request_http_status : Option ℕ
  pub request_retry_after_ms : Option ℕ
  pub request_retry_at_utc : Option Instant
  pub download_remote_ip : Option String
  pub upload_remote_ip : Option String
  pub error_kind : Option ErrorKind

-- `MeasurementEvent::new`.
unfoldable pub new_event : String → EventKind → Outcome → Instant → MeasurementEvent
new_event run_id kind outcome finished_at = record {
  event_kind = kind;
  run_id = run_id;
  scheduled_at_utc = none;
  requested_at_utc = none;
  finished_at_utc = some finished_at;
  outcome = outcome;
  message = none;
  interface = none;
  provider_id = none;
  provider_kind = none;
  scheduler_action = none;
  scheduler_reason = none;
  trigger_reason = none;
  scheduler_not_before_utc = none;
  provider_accounting_date = none;
  provider_daily_starts = none;
  bandwidth_start_reserved = none;
  ping_rtt_ms = none;
  request_stage = none;
  request_http_status = none;
  request_retry_after_ms = none;
  request_retry_at_utc = none;
  download_remote_ip = none;
  upload_remote_ip = none;
  error_kind = none;
}
