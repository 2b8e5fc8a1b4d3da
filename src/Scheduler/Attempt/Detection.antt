-- ===== src/Scheduler/Attempt/Detection.antt =====
-- Which reports `rate_limit_from_report` of src/scheduler.rs takes for a rate limit.
use netband.Base.{
  ◌≡◌, ◌↔◌, ◌⊎◌, refl, true, Bool-cases, Option-cases, inl, inr, none, some, List, [], ◌∷◌, All,
  arith,
}
use netband.Model.{
  ProviderKind, RequestStage, Outcome, EventKind, MeasurementEvent, is_request_failure,
}
use netband.Scheduler.Attempt.RateLimit.{is_limit, event_limit, rate_limit_from_report}

-- A response that asks for a pause: by the outcome, by status 429, by M-Lab's locate service with
-- 204 or 503, or by a direct server that refuses the WebSocket handshake with 503.
abbrev pub AsksToWait : ProviderKind → RequestStage → MeasurementEvent → Type 0
AsksToWait kind stage e =
    (e.outcome ≡ Outcome.rate_limited)
    ⊎ (e.request_http_status ≡ some 429)
    ⊎ ((stage ≡ RequestStage.locate)
        × (kind ≡ ProviderKind.mlab)
        × ((e.request_http_status ≡ some 204) ⊎ (e.request_http_status ≡ some 503)))
    ⊎ ((stage ≡ RequestStage.websocket_handshake)
        × (kind ≡ ProviderKind.direct)
        × (e.request_http_status ≡ some 503))

is_limit_iff :
    (kind : ProviderKind) (stage : RequestStage) (e : MeasurementEvent)
    → (is_limit kind stage e ≡ true) ↔ AsksToWait kind stage e
unfolding is_limit
is_limit_iff kind stage e = (λ h. ground arith, λ h. ground arith)

-- A failed request, at a stage that is known, whose response asks for a pause.
abbrev pub IsRateLimit : ProviderKind → MeasurementEvent → Type 0
IsRateLimit kind e =
    (e.event_kind ≡ EventKind.request_failure)
    × ((stage : RequestStage) × (e.request_stage ≡ some stage) × AsksToWait kind stage e)

event_limit-none_iff :
    (kind : ProviderKind) (e : MeasurementEvent)
    → (event_limit kind e ≡ none) ↔ (IsRateLimit kind e → ⊥)
unfolding event_limit
event_limit-none_iff kind e = (
  λ h (failure, (stage, at, asks)).
      let limited = (is_limit_iff kind stage e).1 asks in ground arith,
  λ h. elim (Option-cases e.request_stage) [
    | inl unknown ↦ ground arith
    | inr (stage, at) ↦ elim (Bool-cases (is_limit kind stage e)) [
      | inl limited ↦ elim (Bool-cases (is_request_failure e.event_kind)) [
        | inl failed ↦ absurd (h (ground arith, (stage, at, (is_limit_iff kind stage e).0 limited)))
        | inr other ↦ ground arith
      ]
      | inr free ↦ ground arith
    ]
  ],
)

-- A report is taken for no rate limit exactly when none of its events is a failed request, at a
-- stage that is known, whose response asks for a pause.
pub rate_limit_from_report-none_iff :
    (kind : ProviderKind) (events : List MeasurementEvent)
    → (rate_limit_from_report kind events ≡ none) ↔ All (λ e. IsRateLimit kind e → ⊥) events
unfolding rate_limit_from_report
rate_limit_from_report-none_iff kind [] = (λ h. tt, λ h. refl)
rate_limit_from_report-none_iff kind (e ∷ es) =
    let here = event_limit-none_iff kind e in
    let rest = rate_limit_from_report-none_iff kind es in
    (
      λ h. (here.0 (ground arith), rest.0 (ground arith)),
      λ h. let first = here.1 h.0 in let others = rest.1 h.1 in ground arith,
    )
