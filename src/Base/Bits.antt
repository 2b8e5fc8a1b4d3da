-- ===== src/Base/Bits.antt =====
-- Exclusive or at variables: the law for the lowest digit, and what follows from it for the
-- shift register of scheduler.rs.
use Prim.Native.Nat.{
  ℕ, zero, suc, ◌+◌, ◌*◌, ◌/◌, ◌%◌, ◌^◌, ◌≤◌, ◌<◌, bit_xor, digits, differ, bit_xor-bitwise,
}
use mathlib.Core.Path.{◌≡◌, refl}
use native.Mathlib.Nat.{pow-suc}
use native.Mathlib.Omega.{arith}

abbrev xor_digits : ℕ → ℕ → ℕ → ℕ
xor_digits n a b = digits (λ b. b) differ n a b

xor_digits_fuel : (n m a b : ℕ) → a ≤ n → a ≤ m → xor_digits n a b ≡ xor_digits m a b
xor_digits_fuel zero zero a b p q = refl
xor_digits_fuel zero (suc m) zero b p q = refl
xor_digits_fuel zero (suc m) (suc a) b p q = absurd (omega arith)
xor_digits_fuel (suc n) zero zero b p q = refl
xor_digits_fuel (suc n) zero (suc a) b p q = absurd (omega arith)
xor_digits_fuel (suc n) (suc m) zero b p q = refl
xor_digits_fuel (suc n) (suc m) (suc a) b p q =
    omega (arith, xor_digits_fuel n m (suc a / 2) (b / 2) (omega arith) (omega arith))

zero-bit_xor : (b : ℕ) → bit_xor 0 b ≡ b
zero-bit_xor b = bit_xor-bitwise 0 b

differ_zero : (b : ℕ) → b < 2 → differ 0 b ≡ b
differ_zero zero h = refl
differ_zero (suc zero) h = refl
differ_zero (suc (suc b)) h = absurd (omega arith)

bit_xor_step : (a b : ℕ) → bit_xor a b ≡ bit_xor (a / 2) (b / 2) * 2 + differ (a % 2) (b % 2)
bit_xor_step zero b =
    omega (arith, zero-bit_xor b, zero-bit_xor (b / 2), differ_zero (b % 2) (omega arith))
bit_xor_step (suc a) b = omega (
  arith,
  bit_xor-bitwise (suc a) b,
  bit_xor-bitwise (suc a / 2) (b / 2),
  xor_digits_fuel a (suc a / 2) (suc a / 2) (b / 2) (omega arith) (omega arith),
)

differ_eq : (a b : ℕ) → a < 2 → b < 2 → differ a b ≡ 0 → a ≡ b
differ_eq zero b p q h = omega (arith, differ_zero b q)
differ_eq (suc zero) zero p q h = h
differ_eq (suc zero) (suc zero) p q h = refl
differ_eq (suc zero) (suc (suc b)) p q h = absurd (omega arith)
differ_eq (suc (suc a)) b p q h = absurd (omega arith)

differ-le : (a b : ℕ) → a < 2 → b < 2 → differ a b ≤ 1
differ-le zero b p q = omega (arith, differ_zero b q)
differ-le (suc zero) zero p q = omega arith
differ-le (suc zero) (suc zero) p q = omega arith
differ-le (suc zero) (suc (suc b)) p q = absurd (omega arith)
differ-le (suc (suc a)) b p q = absurd (omega arith)

bit_xor_eq_below : (n a b : ℕ) → a + b ≤ n → bit_xor a b ≡ 0 → a ≡ b
bit_xor_eq_below zero a b p h = omega arith
bit_xor_eq_below (suc n) zero b p h = omega (arith, zero-bit_xor b)
bit_xor_eq_below (suc n) (suc a) b p h =
    let step = bit_xor_step (suc a) b in
    let high = bit_xor_eq_below n (suc a / 2) (b / 2) (omega arith) (omega arith) in
    let low = differ_eq (suc a % 2) (b % 2) (omega arith) (omega arith) (omega arith) in omega arith

-- Only equal numbers cancel.
pub eq_of_bit_xor : (a b : ℕ) → bit_xor a b ≡ 0 → a ≡ b
eq_of_bit_xor a b = bit_xor_eq_below (a + b) a b (omega arith)

-- Exclusive or stays within the width of its arguments.
pub bit_xor-lt : (k a b : ℕ) → a < 2 ^ k → b < 2 ^ k → bit_xor a b < 2 ^ k
bit_xor-lt zero zero b p q = omega (arith, zero-bit_xor b)
bit_xor-lt zero (suc a) b p q = absurd (omega arith)
bit_xor-lt (suc k) a b p q = omega (
  arith,
  pow-suc 2 k,
  bit_xor_step a b,
  differ-le (a % 2) (b % 2) (omega arith) (omega arith),
  bit_xor-lt k (a / 2) (b / 2) (omega (arith, pow-suc 2 k)) (omega (arith, pow-suc 2 k)),
)
