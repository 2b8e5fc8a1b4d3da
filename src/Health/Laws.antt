-- ===== src/Health/Laws.antt =====
-- The window of src/health.rs: what its two branches keep, and its bound.
use netband.Base.{
  ℕ, ◌+◌, ◌≤◌, ◌<◌, ◌≡◌, ◌≢◌, ◌⊎◌, refl, Bool, true, false, Bool-cases, Option-cases, inl, inr,
  Option, none, some, List, [], ◌∷◌, leb, arith, length, if◌then◌else◌, sym, not, subst,
}
use netband.Health.{
  HealthSample, HealthSnapshot, HealthDecision, HealthWindow, Float64, trim, observe_healthy,
  observe_degraded, degradation_reason,
}

-- A window that is degraded has its reason; a recovery in progress is short of the rounds it needs.
pub record Coherent (window : HealthWindow) : Type 0 where
  pub reason : window.degraded ≡ true → window.degradation_reason ≢ none
  pub streak :
      (window.recovery_streak ≡ 0) ⊎ (window.recovery_streak < window.config.recovery_rounds)

-- The decision says what the window has become.
abbrev pub Tells : HealthWindow → Option HealthDecision → Type 0
Tells window none = ⊥
Tells window (some (HealthDecision.healthy s)) = window.degraded ≡ false
Tells window (some (HealthDecision.recovered s)) = window.degraded ≡ false
Tells window (some (HealthDecision.degraded s reason)) =
    (window.degraded ≡ true) × (window.degradation_reason ≡ some reason)

abbrev pub Steady : HealthWindow → HealthWindow × Option HealthDecision → Type 0
Steady before after =
    Coherent after.0
    × Tells after.0 after.1
    × (after.0.rounds ≡ before.rounds)
    × (after.0.config ≡ before.config)

pub length-trim :
    (limit : ℕ) (rounds : List (List HealthSample)) → length (trim limit rounds) ≤ limit
unfolding trim
length-trim limit [] = omega arith
length-trim limit (r ∷ rs) = let rest = length-trim limit rs in ground arith

observe_healthy-Steady :
    (f : Float64) (window : HealthWindow) (s : HealthSnapshot)
    → Coherent window
    → window.degraded ≡ false
    → Steady window (observe_healthy f window s)
unfolding observe_healthy
observe_healthy-Steady f window s h well =
    elim (Option-cases (degradation_reason f s window.config)) [
      | inl e ↦ rw (observe_healthy, e) (h, well, refl, refl)
      | inr (r, e) ↦
          rw (observe_healthy, e)
            (record { reason = λ _. ground arith; streak = inl refl }, (refl, refl), refl, refl)
    ]

observe_degraded-Steady :
    (window : HealthWindow) (s : HealthSnapshot) (good : Bool)
    → Coherent window
    → window.degraded ≡ true
    → Steady window (observe_degraded window s good)
unfolding observe_degraded
observe_degraded-Steady window s good h ill =
    let reason = h.reason ill in
    let streak = if good then window.recovery_streak + 1 else 0 in
    elim (Bool-cases (leb window.config.recovery_rounds streak)) [
      | inl done ↦
          rw (observe_degraded, done)
            (record { reason = λ on. ground arith; streak = inl refl }, refl, refl, refl)
      | inr short ↦ elim (Option-cases window.degradation_reason) [
        | inl e ↦ absurd (reason e)
        | inr (r, e) ↦
            rw (observe_degraded, short, e)
              (
                record { reason = λ on. ground arith; streak = inr (ground arith) },
                (ill, refl),
                refl,
                refl,
              )
      ]
    ]

-- What is promised of a window after a round.
abbrev pub Kept : HealthWindow → HealthWindow × Option HealthDecision → Type 0
Kept before after =
    Coherent after.0
    × Tells after.0 after.1
    × (length after.0.rounds ≤ before.config.window_rounds)
    × (after.0.config ≡ before.config)

Steady-Kept :
    (before : HealthWindow) (after : HealthWindow × Option HealthDecision)
    → length before.rounds ≤ before.config.window_rounds
    → Steady before after
    → Kept before after
Steady-Kept before after few (coherent, tells, same_rounds, same_config) = (
  coherent,
  tells,
  subst (λ rs. length rs ≤ before.config.window_rounds) (sym same_rounds) few,
  same_config,
)

pub either_state-Kept :
    (f : Float64) (window : HealthWindow) (s : HealthSnapshot) (good : Bool)
    → length window.rounds ≤ window.config.window_rounds
    → Coherent window
    → (ill : Bool) → window.degraded ≡ ill
    → Kept window (if not ill then observe_healthy f window s else observe_degraded window s good)
either_state-Kept f window s good few h true ill =
    Steady-Kept window _ few (observe_degraded-Steady window s good h ill)
either_state-Kept f window s good few h false well =
    Steady-Kept window _ few (observe_healthy-Steady f window s h well)
