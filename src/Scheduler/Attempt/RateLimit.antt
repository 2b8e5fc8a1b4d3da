-- ===== src/Scheduler/Attempt/RateLimit.antt =====
-- src/scheduler.rs: `rate_limit_from_report`, and the test of `finish_attempt` for a request that
-- reached its provider.
use netband.Base.{
  ℕ, Bool, false, ◌&&◌, ◌||◌, Option, none, some, List, [], ◌∷◌, ◌==◌, if◌then◌else◌,
}
use netband.Model.{
  ProviderKind, RequestStage, MeasurementEvent, is_request_failure, is_rate_limited, is_locate,
  is_mlab, is_direct, is_websocket_handshake, is_bandwidth, is_success_or_partial,
}
use netband.Scheduler.Types.{RateLimit}
use netband.Scheduler.Trigger.{is_some}

-- `status == Some(code)`.
abbrev pub has_status : ℕ → Option ℕ → Bool
has_status code none = false
has_status code (some status) = status == code

unfoldable pub is_limit : ProviderKind → RequestStage → MeasurementEvent → Bool
is_limit kind stage e =
    is_rate_limited e.outcome
    || has_status 429 e.request_http_status
    || (is_locate stage
        && is_mlab kind
        && (has_status 204 e.request_http_status || has_status 503 e.request_http_status))
    || (is_websocket_handshake stage && is_direct kind && has_status 503 e.request_http_status)

abbrev limit_of : RequestStage → MeasurementEvent → RateLimit
limit_of stage e = record {
  deadline = e.request_retry_at_utc;
  stage = stage;
  status = e.request_http_status;
  retry_after = e.request_retry_after_ms;
}

-- The closure of `find_map`; `request_stage?` gives up on an event with no stage.
abbrev limit_at : ProviderKind → MeasurementEvent → Option RequestStage → Option RateLimit
limit_at kind e none = none
limit_at kind e (some stage) = if is_limit kind stage e then some (limit_of stage e) else none

unfoldable pub event_limit : ProviderKind → MeasurementEvent → Option RateLimit
event_limit kind e =
    if is_request_failure e.event_kind then limit_at kind e e.request_stage else none

abbrev or_else : Option RateLimit → Option RateLimit → Option RateLimit
or_else none b = b
or_else (some a) b = some a

unfoldable pub rate_limit_from_report : ProviderKind → List MeasurementEvent → Option RateLimit
unfolding event_limit is_limit
rate_limit_from_report kind [] = none
rate_limit_from_report kind (e ∷ es) = or_else (event_limit kind e) (rate_limit_from_report kind es)

unfoldable pub successful_request : List MeasurementEvent → Bool
successful_request [] = false
successful_request (e ∷ es) =
    (is_bandwidth e.event_kind
      && (is_some e.download_remote_ip
          || is_some e.upload_remote_ip
          || is_success_or_partial e.outcome))
    || successful_request es
