-- ===== src/Health/Panics.antt =====
-- Rounds of src/health.rs and their panics: the index of the percentile and the `expect`, over the
-- laws `IsFloat64` of the arithmetic of `f64`.
use netband.Base.{
  ℕ, zero, suc, ◌+◌, ◌^◌, ◌≤◌, ◌<◌, ◌≡◌, ◌↔◌, refl, true, Option, none, some, List, [], ◌∷◌, ◌++◌,
  arith, length, get_elem?, not, sym, subst, if◌then◌else◌,
}
use netband.Model.{F64}
use netband.Health.{
  HealthSample, HealthSnapshot, HealthWindow, Float64, trim, rank, p95, rtts_of, observe_healthy,
  observe_degraded, observe_round, snapshot, flatten, recovery_round, at_rank,
}
use netband.Health.Laws.{Coherent, Tells, Kept, either_state-Kept, length-trim}

-- The laws of IEEE 754 that the percentile needs. Up to 2^53 a count is an exact `f64`.
pub record IsFloat64 (f : Float64) : Type 0 where
  pub times_quantile : (n : ℕ) → f.fle (f.times (f.of_usize n) f.quantile) (f.of_usize n) ≡ true
  pub ceil_whole :
      (x : F64) (n : ℕ) → f.fle x (f.of_usize n) ≡ true → f.fle (f.ceil x) (f.of_usize n) ≡ true
  pub to_usize_mono : (x y : F64) → f.fle x y ≡ true → f.to_usize x ≤ f.to_usize y
  pub exact : (n : ℕ) → n ≤ 2 ^ 53 → f.to_usize (f.of_usize n) ≡ n
  pub sort_length : (xs : List F64) → length (f.total_sort xs) ≡ length xs

get_elem?-in_range :
    {A : Type 0} (xs : List A) (i : ℕ) → i < length xs → (x : A) × (get_elem? xs i ≡ some x)
get_elem?-in_range [] i h = absurd (omega arith)
get_elem?-in_range (x ∷ xs) zero h = (x, refl)
get_elem?-in_range (x ∷ xs) (suc i) h = get_elem?-in_range xs i (omega arith)

at_rank-in_range :
    (xs : List F64) (n : ℕ) → 0 < n → n ≤ length xs → (x : F64) × (at_rank xs n ≡ some x)
at_rank-in_range xs zero some_rank h = absurd (omega arith)
at_rank-in_range xs (suc i) some_rank h = get_elem?-in_range xs i (omega arith)

rank_bounds :
    (f : Float64) (n : ℕ) → IsFloat64 f → 0 < n → n ≤ 2 ^ 53 → (0 < rank f n) × (rank f n ≤ n)
unfolding rank
rank_bounds f n laws some_item small =
    let below =
      laws.to_usize_mono (f.ceil (f.times (f.of_usize n) f.quantile)) (f.of_usize n)
        (laws.ceil_whole (f.times (f.of_usize n) f.quantile) n (laws.times_quantile n)) in
    (omega arith, omega (arith, below, laws.exact n small))

-- With the laws `IsFloat64`, and of up to 2^53 times, `p95` does not panic, as its rank is neither 0
-- nor beyond the end. It gives none exactly of no times.
pub p95_in_range :
    (f : Float64) (rtts : List F64)
    → IsFloat64 f
    → length rtts ≤ 2 ^ 53
    → (p : Option F64) × (p95 f rtts ≡ some p) × ((p ≡ none) ↔ (rtts ≡ []))
unfolding p95
p95_in_range f [] laws small = (none, refl, (λ h. refl, λ h. refl))
p95_in_range f (r ∷ rs) laws small =
    let sorted = f.total_sort (r ∷ rs) in
    let size = laws.sort_length (r ∷ rs) in
    let (some_rank, below) =
      rank_bounds f (length sorted) laws (omega (arith, size)) (omega (arith, size, small)) in
    let (x, e) = at_rank-in_range sorted (rank f (length sorted)) some_rank below in
    rw (p95, e) (some x, refl, (λ h. absurd (ground arith), λ h. absurd (ground arith)))

length-rtts_of : (samples : List HealthSample) → length (rtts_of samples) ≤ length samples
length-rtts_of [] = omega arith
length-rtts_of (s ∷ rest) = ground (arith, length-rtts_of rest)

snapshot-some :
    (f : Float64) (samples : List HealthSample) (min_samples : ℕ)
    → IsFloat64 f
    → length samples ≤ 2 ^ 53
    → (s : HealthSnapshot) × (snapshot f samples min_samples ≡ some s)
unfolding snapshot
snapshot-some f samples min_samples laws small =
    let (p, e, empty) =
      p95_in_range f (rtts_of samples) laws (omega (arith, small, length-rtts_of samples)) in
    rw (snapshot, e) (_, refl)

length-append : {A : Type 0} (xs ys : List A) → length (xs ++ ys) ≡ length xs + length ys
length-append [] ys = omega arith
length-append (x ∷ xs) ys = omega (arith, length-append xs ys)

length-flatten-last :
    (rounds : List (List HealthSample)) (samples : List HealthSample)
    → length (flatten (rounds ++ samples ∷ [])) ≡ length (flatten rounds) + length samples
length-flatten-last [] samples = omega (arith, length-append samples [])
length-flatten-last (r ∷ rs) samples = omega (
  arith,
  length-append r (flatten (rs ++ samples ∷ [])),
  length-append r (flatten rs),
  length-flatten-last rs samples,
)

length-flatten-trim :
    (limit : ℕ) (rounds : List (List HealthSample))
    → length (flatten (trim limit rounds)) ≤ length (flatten rounds)
unfolding trim
length-flatten-trim limit [] = omega arith
length-flatten-trim limit (r ∷ rs) =
    ground (arith, length-flatten-trim limit rs, length-append r (flatten rs))

-- A round of a coherent window gives a decision, and so no panic, which says what the window has
-- become, with the laws `IsFloat64` and no more than 2^53 samples in the window and the round
-- together. The window stays
-- coherent, under the same configuration, and holds no more rounds than that allows.
pub observe_round-Coherent :
    (f : Float64) (window : HealthWindow) (samples : List HealthSample)
    → IsFloat64 f
    → length (flatten window.rounds) + length samples ≤ 2 ^ 53
    → Coherent window
    → let after = observe_round f window samples in
      Coherent after.0
      × Tells after.0 after.1
      × (length after.0.rounds ≤ window.config.window_rounds)
      × (after.0.config ≡ window.config)
unfolding observe_round
observe_round-Coherent f window samples laws small h =
    let limit = window.config.window_rounds in
    let all = window.rounds ++ samples ∷ [] in
    let shifted : HealthWindow = record window { rounds = trim limit all } in
    let coherent : Coherent shifted = record { reason = h.reason; streak = h.streak } in
    let (round, e_round) = snapshot-some f samples 0 laws (omega (arith, small)) in
    let fits : length (flatten (trim limit all)) ≤ 2 ^ 53 =
      omega
        (arith, small, length-flatten-last window.rounds samples, length-flatten-trim limit all) in
    let (seen, e_seen) =
      snapshot-some f (flatten shifted.rounds) window.config.min_samples laws fits in
    let good = recovery_round f round window.config in
    let same : observe_round f window samples ≡ (
        if not window.degraded
        then observe_healthy f shifted seen
        else observe_degraded shifted seen good) =
      rw (observe_round, e_round, e_seen) refl in
    subst (Kept shifted) (sym same)
      (either_state-Kept f shifted seen good (length-trim limit all) coherent window.degraded refl)
