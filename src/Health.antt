-- ===== src/Health.antt =====
-- src/health.rs: the sliding window of ping rounds and its degraded/recovered state machine. The
-- primitive operations on `f64` are an interface, `Float64`, over bit patterns.
pub mod Laws
pub mod Panics
use netband.Base.{
  ℕ, zero, suc, ◌+◌, ◌-◌, max, Bool, true, false, not, Option, none, some, List, [], ◌∷◌, ◌++◌, ltb,
  leb, ◌==◌, if◌then◌else◌, length, count_if, get_elem?,
}
use netband.Model.{F64, MeasurementEvent, is_ping_probe, is_success}

pub record HealthSample : Type 0 where
  pub successful : Bool
  pub rtt_ms : Option F64

pub record HealthSnapshot : Type 0 where
  pub attempted : ℕ
  pub successful : ℕ
  pub loss_pct : F64
  pub p95_rtt_ms : Option F64
  pub sufficient_samples : Bool

pub data DegradationReason : Type 0 where
  loss rtt loss_and_rtt : DegradationReason

pub data HealthDecision : Type 0 where
  healthy : HealthSnapshot → HealthDecision
  degraded : HealthSnapshot → DegradationReason → HealthDecision
  recovered : HealthSnapshot → HealthDecision

pub record HealthConfig : Type 0 where
  pub window_rounds : ℕ
  pub min_samples : ℕ
  pub loss_threshold_pct : F64
  pub rtt_threshold_ms : Option F64
  pub recovery_loss_pct : F64
  pub recovery_rounds : ℕ

pub record HealthWindow : Type 0 where
  pub config : HealthConfig
  pub rounds : List (List HealthSample)
  pub degraded : Bool
  pub degradation_reason : Option DegradationReason
  pub recovery_streak : ℕ

-- What the window uses of `f64`.
pub record Float64 : Type 0 where
  pub zero_float : F64
  pub hundred : F64  -- `100.0`
  pub quantile : F64  -- `0.95`
  pub of_usize : ℕ → F64  -- `n as f64`
  pub to_usize : F64 → ℕ  -- `x as usize`
  pub times : F64 → F64 → F64
  pub divided : F64 → F64 → F64
  pub ceil : F64 → F64
  pub fle : F64 → F64 → Bool  -- `<=`
  pub flt : F64 → F64 → Bool  -- `<`
  pub total_sort : List F64 → List F64  -- `sort_by(f64::total_cmp)`

unfoldable pub new_window : HealthConfig → HealthWindow
new_window config = record {
  config = config;
  rounds = [];
  degraded = false;
  degradation_reason = none;
  recovery_streak = 0;
}

abbrev pub flatten : List (List HealthSample) → List HealthSample
flatten [] = []
flatten (round ∷ rounds) = round ++ flatten rounds

-- The `filter_map` of the round-trip times of the successful samples.
abbrev pub rtts_of : List HealthSample → List F64
rtts_of [] = []
rtts_of (s ∷ rest) =
    if s.successful
    then elim s.rtt_ms [ none ↦ rtts_of rest | some r ↦ r ∷ rtts_of rest ]
    else rtts_of rest

-- `while rounds.len() > window_rounds { rounds.pop_front() }`.
pub trim : ℕ → List (List HealthSample) → List (List HealthSample)
trim limit [] = []
trim limit (r ∷ rs) = elim (ltb limit (suc (length rs))) [ true ↦ trim limit rs | false ↦ r ∷ rs ]

-- `((len as f64 * 0.95).ceil() as usize).max(1)`.
unfoldable pub rank : Float64 → ℕ → ℕ
rank f size = max (f.to_usize (f.ceil (f.times (f.of_usize size) f.quantile))) 1

-- `rtts[rank - 1]`: a panic, which is `none`, for a rank of 0 or beyond the end.
abbrev pub at_rank : List F64 → ℕ → Option F64
at_rank xs zero = none
at_rank xs (suc i) = get_elem? xs i

unfoldable pub p95 : Float64 → List F64 → Option (Option F64)
p95 f [] = some none
p95 f (r ∷ rs) =
    let sorted = f.total_sort (r ∷ rs) in
    elim (at_rank sorted (rank f (length sorted))) [ none ↦ none | some x ↦ some (some x) ]

-- `none` is the panic of `p95`.
unfoldable pub snapshot : Float64 → List HealthSample → ℕ → Option HealthSnapshot
snapshot f samples min_samples =
    let attempted = length samples in
    let successful = count_if (λ s. s.successful) samples in
    elim (p95 f (rtts_of samples)) [
      | none ↦ none
      | some p95_rtt_ms ↦ some (record {
        attempted = attempted;
        successful = successful;
        loss_pct =
            if attempted == 0
            then f.zero_float
            else f.divided (f.times (f.of_usize (attempted - successful)) f.hundred)
                (f.of_usize attempted);
        p95_rtt_ms = p95_rtt_ms;
        sufficient_samples = leb min_samples attempted;
      })
    ]

-- `threshold.zip(p95).is_some_and(|(threshold, p95)| p95 >= threshold)`.
abbrev pub rtt_exceeds : Float64 → Option F64 → Option F64 → Bool
rtt_exceeds f (some threshold) (some p) = f.fle threshold p
rtt_exceeds f (some threshold) none = false
rtt_exceeds f none p = false

abbrev pub reason_of : Bool → Bool → Option DegradationReason
reason_of true true = some loss_and_rtt
reason_of true false = some loss
reason_of false true = some rtt
reason_of false false = none

unfoldable pub degradation_reason :
    Float64 → HealthSnapshot → HealthConfig → Option DegradationReason
degradation_reason f s config =
    if not s.sufficient_samples
    then none
    else reason_of (f.fle config.loss_threshold_pct s.loss_pct)
        (rtt_exceeds f config.rtt_threshold_ms s.p95_rtt_ms)

abbrev pub rtt_below : Float64 → Option F64 → Option F64 → Bool
rtt_below f none p = true
rtt_below f (some threshold) none = false
rtt_below f (some threshold) (some p) = f.flt p threshold

unfoldable pub recovery_round : Float64 → HealthSnapshot → HealthConfig → Bool
recovery_round f s config =
    if s.attempted == 0
    then false
    else if f.fle config.recovery_loss_pct s.loss_pct
    then false
    else rtt_below f config.rtt_threshold_ms s.p95_rtt_ms

-- The last branch of `observe_round`; `none` is the panic of `expect`.
abbrev still_degraded : HealthSnapshot → Option DegradationReason → Option HealthDecision
still_degraded s none = none
still_degraded s (some reason) = some (degraded s reason)

-- A window that is not degraded looks for a reason to be.
pub observe_healthy : Float64 → HealthWindow → HealthSnapshot → HealthWindow × Option HealthDecision
observe_healthy f window s = elim (degradation_reason f s window.config) [
  | none ↦ (window, some (healthy s))
  | some reason ↦ (
    record window { degraded = true; degradation_reason = some reason; recovery_streak = 0 },
    some (degraded s reason),
  )
]

-- A degraded window counts recovery rounds in a row.
pub observe_degraded : HealthWindow → HealthSnapshot → Bool → HealthWindow × Option HealthDecision
observe_degraded window s good =
    let streak = if good then window.recovery_streak + 1 else 0 in
    if leb window.config.recovery_rounds streak
    then (
      record window { degraded = false; degradation_reason = none; recovery_streak = 0 },
      some (recovered s),
    )
    else (record window { recovery_streak = streak }, still_degraded s window.degradation_reason)

-- `none` as the decision is a panic, with the window as it is then.
unfoldable pub observe_round :
    Float64 → HealthWindow → List HealthSample → HealthWindow × Option HealthDecision
unfolding trim observe_healthy observe_degraded
observe_round f window samples =
    let rounds = trim window.config.window_rounds (window.rounds ++ samples ∷ []) in
    let shifted : HealthWindow = record window { rounds = rounds } in
    elim (snapshot f samples 0) [
      | none ↦ (window, none)
      | some round_snapshot ↦ elim (snapshot f (flatten rounds) window.config.min_samples) [
        | none ↦ (shifted, none)
        | some window_snapshot ↦
            if not window.degraded
            then observe_healthy f shifted window_snapshot
            else observe_degraded shifted window_snapshot
                (recovery_round f round_snapshot window.config)
      ]
    ]

abbrev pub samples_of : List MeasurementEvent → List HealthSample
samples_of [] = []
samples_of (e ∷ es) =
    if is_ping_probe e.event_kind
    then record {
      successful = is_success e.outcome;
      rtt_ms = if is_success e.outcome then e.ping_rtt_ms else none;
    }
      ∷ samples_of es
    else samples_of es

unfoldable pub observe_events :
    Float64 → HealthWindow → List MeasurementEvent → HealthWindow × Option HealthDecision
unfolding observe_round
observe_events f window events = observe_round f window (samples_of events)
