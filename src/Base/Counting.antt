-- ===== src/Base/Counting.antt =====
-- Counting in lists: what appending, retaining and sorting do to a count.
use netband.Base.Lists.{count_if, retain, insert_sorted, sort}
use Prim.Native.Nat.{ℕ, ◌+◌}
use mathlib.Core.Path.{◌≡◌, refl}
use mathlib.Core.Bool.{Bool, true}
use mathlib.Core.List.{List, [], ◌∷◌, ◌++◌}
use native.Mathlib.Omega.{arith}

pub count_if-append {ℓ} :
    {A : Type ℓ} (p : A → Bool) (xs ys : List A)
    → count_if p (xs ++ ys) ≡ count_if p xs + count_if p ys
count_if-append p [] ys = omega arith
count_if-append p (x ∷ xs) ys = ground (arith, count_if-append p xs ys)

-- What is dropped was not counted.
pub count_if-retain {ℓ} :
    {A : Type ℓ} (p keep : A → Bool) (xs : List A)
    → ((x : A) → p x ≡ true → keep x ≡ true)
    → count_if p (retain keep xs) ≡ count_if p xs
count_if-retain p keep [] h = refl
count_if-retain p keep (x ∷ xs) h = ground (arith, h x, count_if-retain p keep xs h)

count_if-insert_sorted :
    (p : ℕ → Bool) (x : ℕ) (xs : List ℕ) → count_if p (insert_sorted x xs) ≡ count_if p (x ∷ xs)
count_if-insert_sorted p x [] = refl
count_if-insert_sorted p x (y ∷ ys) = ground (arith, count_if-insert_sorted p x ys)

pub count_if-sort : (p : ℕ → Bool) (xs : List ℕ) → count_if p (sort xs) ≡ count_if p xs
count_if-sort p [] = refl
count_if-sort p (x ∷ xs) = ground (arith, count_if-insert_sorted p x (sort xs), count_if-sort p xs)
