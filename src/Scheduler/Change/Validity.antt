-- ===== src/Scheduler/Change/Validity.antt =====
-- The condition of `validate_store` of src/scheduler/persistence.rs, which every write passes through.
use netband.Base.{
  ◌^◌, ◌≤◌, ◌<◌, ◌≡◌, ◌↔◌, refl, Bool, true, false, ◌||◌, Option, none, some, List, [], ◌∷◌, String,
  arith, ltb, ◌==◌, last, str_eq,
}
use netband.Base.Sorting.{IsSorted, Bounded, unsorted, unsorted-false_iff}
use netband.Chrono.{Instant}
use netband.Scheduler.Types.{ProviderState}

-- `Some(*run) > last_started_at_utc`.
abbrev after_last : Option Instant → Option Instant → Bool
after_last none started = false
after_last (some run) none = true
after_last (some run) (some started) = ltb started run

-- The condition under which `validate_store` refuses the entry of a provider.
unfoldable pub is_invalid : String → ProviderState → Bool
is_invalid id state =
    str_eq id ""
    || state.rng_state == 0
    || ltb 100 state.policy_slot_jitter_pct
    || state.policy_min_spacing_ms == 0
    || ltb 4 state.backoff_step
    || unsorted state.runs
    || after_last (last state.runs) state.last_started_at_utc

abbrev pub Started : Option Instant → List Instant → Type 0
Started none [] = Unit
Started none (x ∷ xs) = ⊥
Started (some t) xs = Bounded t xs

-- A state that the validation accepts and whose words fit their types.
pub record IsValid (a : ProviderState) : Type 0 where
  pub seed : (0 < a.rng_state) × (a.rng_state < 2 ^ 64)
  pub jitter : a.policy_slot_jitter_pct ≤ 100
  pub spacing : 0 < a.policy_min_spacing_ms
  pub backoff : a.backoff_step ≤ 4
  pub sorted : IsSorted a.runs
  pub started : Started a.last_started_at_utc a.runs

last-Started :
    (started : Option Instant) (xs : List Instant)
    → IsSorted xs
    → after_last (last xs) started ≡ false
    → Started started xs
last-Started none [] s h = tt
last-Started none (x ∷ []) s h = absurd (ground arith)
last-Started none (x ∷ y ∷ xs) s h = last-Started none (y ∷ xs) s.1 h
last-Started (some t) [] s h = tt
last-Started (some t) (x ∷ []) s h = (ground arith, tt)
last-Started (some t) (x ∷ y ∷ xs) s h =
    let rest = last-Started (some t) (y ∷ xs) s.1 h in (omega arith, rest)

Started-last :
    (started : Option Instant) (xs : List Instant)
    → Started started xs
    → after_last (last xs) started ≡ false
Started-last none [] h = refl
Started-last none (x ∷ xs) h = absurd h
Started-last (some t) [] h = refl
Started-last (some t) (x ∷ []) h = ground arith
Started-last (some t) (x ∷ y ∷ xs) h = Started-last (some t) (y ∷ xs) h.1

-- The validation accepts exactly the valid states, for a provider with a name that is not empty
-- and a 64-bit `rng_state`.
pub is_invalid-false_iff :
    (id : String) (a : ProviderState)
    → str_eq id "" ≡ false
    → a.rng_state < 2 ^ 64
    → (is_invalid id a ≡ false) ↔ IsValid a
unfolding is_invalid
is_invalid-false_iff id a named word = (
  λ h.
      let sorted = (unsorted-false_iff a.runs).0 (ground arith) in
      record {
        seed = (ground arith, word);
        jitter = ground arith;
        spacing = ground arith;
        backoff = ground arith;
        sorted = sorted;
        started = last-Started a.last_started_at_utc a.runs sorted (ground arith);
      },
  λ v. ground (
    arith,
    Started-last a.last_started_at_utc a.runs v.started,
    (unsorted-false_iff a.runs).1 v.sorted,
  ),
)
