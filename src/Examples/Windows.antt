-- ===== src/Examples/Windows.antt =====
-- The health window at concrete inputs, with hundredths for the floating-point ones.
use netband.Base.{
  ℕ, ◌+◌, ◌*◌, ◌/◌, ◌≤◌, ◌≡◌, ◌↔◌, refl, inl, false, Option, none, some, List, [], ◌∷◌, leb, ltb,
  length, arith, sort, insert_sorted, suc,
}
use netband.Health.{HealthWindow, HealthSample, Float64, new_window, observe_round, p95}
use netband.Health.Laws.{Coherent, Tells}
use netband.Health.Panics.{IsFloat64, observe_round-Coherent, p95_in_range}

-- Numbers in hundredths.
abbrev hundredths : Float64
hundredths = record {
  zero_float = 0;
  hundred = 10_000;
  quantile = 95;
  of_usize = λ n. n * 100;
  to_usize = λ x. x / 100;
  times = λ x y. x * y / 100;
  divided = λ x y. x * 100 / y;
  ceil = λ x. (x + 99) / 100 * 100;
  fle = leb;
  flt = ltb;
  total_sort = sort;
}

abbrev window : HealthWindow
window = new_window (record {
  window_rounds = 2;
  min_samples = 1;
  loss_threshold_pct = 5_000;
  rtt_threshold_ms = none;
  recovery_loss_pct = 1_000;
  recovery_rounds = 3;
})

abbrev lost_round : List HealthSample
lost_round = record { successful = false; rtt_ms = none } ∷ []

window-Coherent : Coherent window
unfolding new_window
window-Coherent = record { reason = λ ill. ground arith; streak = inl refl }

length-insert_sorted : (x : ℕ) (xs : List ℕ) → length (insert_sorted x xs) ≡ suc (length xs)
length-insert_sorted x [] = refl
length-insert_sorted x (y ∷ ys) = let rest = length-insert_sorted x ys in ground arith

length-sort : (xs : List ℕ) → length (sort xs) ≡ length xs
length-sort [] = refl
length-sort (x ∷ xs) = omega (arith, length-insert_sorted x (sort xs), length-sort xs)

hundredths-IsFloat64 : IsFloat64 hundredths
hundredths-IsFloat64 = record {
  times_quantile = λ n. ground arith;
  ceil_whole = λ x n h. ground arith;
  to_usize_mono = λ x y h. ground arith;
  exact = λ n h. omega arith;
  sort_length = length-sort;
}

observe_round-Coherent_example :
    Coherent (observe_round hundredths window lost_round).0
    × Tells
        (observe_round hundredths window lost_round).0
        (observe_round hundredths window lost_round).1
    × (length (observe_round hundredths window lost_round).0.rounds ≤ window.config.window_rounds)
    × ((observe_round hundredths window lost_round).0.config ≡ window.config)
unfolding new_window
observe_round-Coherent_example =
    observe_round-Coherent hundredths window lost_round hundredths-IsFloat64 (omega arith)
      window-Coherent

abbrev two_times : List ℕ
two_times = 3_000 ∷ 4_000 ∷ []

p95_in_range_example :
    (p : Option ℕ) × (p95 hundredths two_times ≡ some p) × ((p ≡ none) ↔ (two_times ≡ []))
p95_in_range_example = p95_in_range hundredths two_times hundredths-IsFloat64 (omega arith)
