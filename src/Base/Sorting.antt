-- ===== src/Base/Sorting.antt =====
-- Sorted lists of numbers, and what sorting and retaining do to bounds.
use netband.Base.Lists.{All, retain, insert_sorted, sort}
use netband.Base.Tests.{if◌then◌else◌, ltb, Bool-cases}
use Prim.Native.Nat.{ℕ, ◌≤◌}
use mathlib.Core.Path.{◌≡◌, refl}
use mathlib.Core.Logic.{◌↔◌, inl, inr}
use mathlib.Core.Bool.{Bool, true, false, ◌||◌}
use mathlib.Core.List.{List, [], ◌∷◌, ◌++◌}
use native.Mathlib.Omega.{arith}

-- Every item is at most the later ones.
abbrev pub IsSorted : List ℕ → Type 0
IsSorted [] = Unit
IsSorted (x ∷ xs) = All (λ y. x ≤ y) xs × IsSorted xs

abbrev pub Bounded : ℕ → List ℕ → Type 0
Bounded t xs = All (λ x. x ≤ t) xs

-- `windows(2).any(|pair| pair[0] > pair[1])`.
unfoldable pub unsorted : List ℕ → Bool
unsorted [] = false
unsorted (x ∷ []) = false
unsorted (x ∷ y ∷ xs) = ltb y x || unsorted (y ∷ xs)

pub All-retain {ℓ κ} :
    {A : Type ℓ} (P : A → Type κ) (keep : A → Bool) (xs : List A)
    → All P xs
    → All P (retain keep xs)
All-retain P keep [] h = tt
All-retain P keep (x ∷ xs) h = split (keep x) (All-retain P keep xs h.1)
  where
    split :
        (b : Bool)
        → All P (retain keep xs)
        → All P (if b then x ∷ retain keep xs else retain keep xs)
    split true rest = (h.0, rest)
    split false rest = rest

All-mono : (s t : ℕ) (xs : List ℕ) → s ≤ t → All (λ y. t ≤ y) xs → All (λ y. s ≤ y) xs
All-mono s t [] le h = tt
All-mono s t (x ∷ xs) le h = (omega arith, All-mono s t xs le h.1)

pub Bounded-mono : (s t : ℕ) (xs : List ℕ) → s ≤ t → Bounded s xs → Bounded t xs
Bounded-mono s t [] le h = tt
Bounded-mono s t (x ∷ xs) le h = (omega arith, Bounded-mono s t xs le h.1)

pub retain-IsSorted : (keep : ℕ → Bool) (xs : List ℕ) → IsSorted xs → IsSorted (retain keep xs)
retain-IsSorted keep [] h = tt
retain-IsSorted keep (x ∷ xs) h =
    split (keep x) (All-retain (λ y. x ≤ y) keep xs h.0) (retain-IsSorted keep xs h.1)
  where
    split :
        (b : Bool)
        → All (λ y. x ≤ y) (retain keep xs)
        → IsSorted (retain keep xs)
        → IsSorted (if b then x ∷ retain keep xs else retain keep xs)
    split true above rest = (above, rest)
    split false above rest = rest

All-insert_sorted :
    (P : ℕ → Type 0) (x : ℕ) (xs : List ℕ) → P x → All P xs → All P (insert_sorted x xs)
All-insert_sorted P x [] p h = (p, tt)
All-insert_sorted P x (y ∷ ys) p h = ground (arith, All-insert_sorted P x ys p)

pub All-sort : (P : ℕ → Type 0) (xs : List ℕ) → All P xs → All P (sort xs)
All-sort P [] h = tt
All-sort P (x ∷ xs) h = All-insert_sorted P x (sort xs) h.0 (All-sort P xs h.1)

ltb→le : (x y : ℕ) → ltb x y ≡ true → x ≤ y
ltb→le x y h = ground arith

insert_sorted-IsSorted : (x : ℕ) (xs : List ℕ) → IsSorted xs → IsSorted (insert_sorted x xs)
insert_sorted-IsSorted x [] h = (tt, tt)
insert_sorted-IsSorted x (y ∷ ys) h = elim (Bool-cases (ltb x y)) [
  | inl lt ↦ rw lt ((ltb→le x y lt, All-mono x y ys (ltb→le x y lt) h.0), h)
  | inr ge ↦
      rw ge
        (All-insert_sorted (λ z. y ≤ z) x ys (ground arith) h.0, insert_sorted-IsSorted x ys h.1)
]

pub sort-IsSorted : (xs : List ℕ) → IsSorted (sort xs)
sort-IsSorted [] = tt
sort-IsSorted (x ∷ xs) = insert_sorted-IsSorted x (sort xs) (sort-IsSorted xs)

pub All-append {ℓ κ} :
    {A : Type ℓ} (P : A → Type κ) (xs ys : List A) → All P xs → All P ys → All P (xs ++ ys)
All-append P [] ys h k = k
All-append P (x ∷ xs) ys h k = (h.0, All-append P xs ys h.1 k)

neighbours : (x y : ℕ) (xs : List ℕ) → x ≤ y → IsSorted (y ∷ xs) → IsSorted (x ∷ y ∷ xs)
neighbours x y xs le h = ((le, All-mono x y xs le h.0), h)

-- The test of neighbours decides sortedness.
pub unsorted-false_iff : (xs : List ℕ) → (unsorted xs ≡ false) ↔ IsSorted xs
unfolding unsorted
unsorted-false_iff [] = (λ h. tt, λ h. refl)
unsorted-false_iff (x ∷ []) = (λ h. (tt, tt), λ h. refl)
unsorted-false_iff (x ∷ y ∷ xs) =
    let ih = unsorted-false_iff (y ∷ xs) in
    (λ h. neighbours x y xs (ground arith) (ih.0 (ground arith)), λ h. ground (arith, ih.1 h.1))
