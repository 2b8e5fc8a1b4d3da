-- ===== src/Interfaces/Balance.antt =====
-- Turns taken with the selector of src/interfaces.rs while every interface is eligible.
use netband.Base.{
  ℕ, zero, suc, ◌+◌, ◌≤◌, min, ◌≡◌, refl, sym, ap, subst, ◌∙◌, true, Bool-cases, inl, inr, Option,
  none, some, List, [], ◌∷◌, String, str_eq, str_eq_iff, arith, leb, if◌then◌else◌,
}
use netband.Dict.{get, insert, get-insert}
use netband.Interfaces.{
  FairnessState, next_turn, attempted, FairInterfaceSelector, contains, select, attempts,
  record_attempt, new_selector, no_attempts, default_fairness, turn_limit,
}
use netband.Interfaces.Turns.{select-fewest, select-contains}

abbrev record_selected : Option String → FairInterfaceSelector → FairInterfaceSelector
record_selected none s = s
record_selected (some x) s = record_attempt x s

-- `rounds` selections, each recorded.
unfoldable pub turns : ℕ → FairInterfaceSelector → FairInterfaceSelector
turns zero s = s
turns (suc rounds) s =
    let later = turns rounds s in record_selected (select later later.order) later

record_attempt-known :
    (x : String) (s : FairInterfaceSelector) (a : FairnessState)
    → get x s.state ≡ some a
    → record_attempt x s
      ≡ record s { turn = next_turn s; state = insert x (attempted (next_turn s) a) s.state }
unfolding record_attempt
record_attempt-known x s a h = rw (record_attempt, h) refl

get-record_attempt :
    (x y : String) (s : FairInterfaceSelector) (a : FairnessState)
    → get x s.state ≡ some a
    → get y (record_attempt x s).state
      ≡ (if str_eq x y then some (attempted (next_turn s) a) else get y s.state)
get-record_attempt x y s a h =
    ap (λ t. get y t.state) (record_attempt-known x s a h)
    ∙ get-insert x y (attempted (next_turn s) a) s.state

-- One more attempt, short of the largest number, for the interface that was selected.
attempts-record_attempt :
    (x y : String) (s : FairInterfaceSelector) (a : FairnessState)
    → get x s.state ≡ some a
    → attempts (record_attempt x s) y
      ≡ (if str_eq x y then min (attempts s x + 1) turn_limit else attempts s y)
unfolding attempts
attempts-record_attempt x y s a h = elim (Bool-cases (str_eq x y)) [
  | inl same ↦ ground (arith, h, get-record_attempt x y s a h)
  | inr other ↦ ground (arith, get-record_attempt x y s a h)
]

-- Every interface is known, and has `n` attempts or one more.
record Level (n : ℕ) (s : FairInterfaceSelector) : Type 0 where
  known : (y : String) → contains y s.order ≡ true → (a : FairnessState) × (get y s.state ≡ some a)
  low : (y : String) → contains y s.order ≡ true → n ≤ attempts s y
  high : (y : String) → contains y s.order ≡ true → attempts s y ≤ n + 1
  bounded : (y : String) → contains y s.order ≡ true → attempts s y ≤ turn_limit

record_attempt-Level :
    (n m : ℕ) (x : String) (s : FairInterfaceSelector)
    → Level n s
    → contains x s.order ≡ true
    → ((y : String) → contains y s.order ≡ true → (attempts s x ≤ attempts s y))
    → (m ≡ (if leb (attempts s x) n then n else n + 1))
    → Level m (record_attempt x s)
record_attempt-Level n m x s l chosen fewest e =
    let k = l.known x chosen in
    let step = record_attempt-known x s k.0 k.1 in
    let order : (record_attempt x s).order ≡ s.order = ap (λ t. t.order) step in
    let same = λ (y : String) (h : contains y (record_attempt x s).order ≡ true).
      subst (λ o. contains y o ≡ true) order h in
    record {
      known = λ y h. elim (Bool-cases (str_eq x y)) [
        | inl here ↦ (attempted (next_turn s) k.0, ground (arith, get-record_attempt x y s k.0 k.1))
        | inr other ↦
            let old = l.known y (same y h) in
            (old.0, ground (arith, old.1, get-record_attempt x y s k.0 k.1))
      ];
      low = λ y h. ground (
        arith,
        e,
        attempts-record_attempt x y s k.0 k.1,
        l.low y (same y h),
        l.low x chosen,
        l.high x chosen,
        l.bounded x chosen,
        fewest y (same y h),
      );
      high = λ y h. ground (
        arith,
        e,
        attempts-record_attempt x y s k.0 k.1,
        l.low x chosen,
        l.high y (same y h),
        l.high x chosen,
      );
      bounded =
          λ y h. ground (arith, attempts-record_attempt x y s k.0 k.1, l.bounded y (same y h));
    }

get-no_attempts :
    (y : String) (xs : List String)
    → contains y xs ≡ true
    → get y (no_attempts xs) ≡ some default_fairness
unfolding no_attempts
get-no_attempts y [] h = absurd (ground arith)
get-no_attempts y (x ∷ xs) h = ground (
  arith,
  str_eq_iff x y,
  str_eq_iff y x,
  get-insert x y default_fairness (no_attempts xs),
  get-no_attempts y xs,
)

new_selector-Level : (xs : List String) → Level 0 (new_selector xs)
unfolding new_selector attempts
new_selector-Level xs = record {
  known = λ y h. (default_fairness, get-no_attempts y xs h);
  low = λ y h. ground arith;
  high = λ y h. ground (arith, get-no_attempts y xs h);
  bounded = λ y h. ground (arith, get-no_attempts y xs h);
}

turn-Level :
    (n : ℕ) (s : FairInterfaceSelector) (o : Option String)
    → select s s.order ≡ o
    → Level n s
    → (m : ℕ) × Level m (record_selected o s)
turn-Level n s none e l = (n, l)
turn-Level n s (some x) e l =
    let chosen = (select-contains s s.order x e).0 in
    let m = if leb (attempts s x) n then n else n + 1 in
    (
      m,
      record_attempt-Level n m x s l chosen
          (λ y h.
            let best = select-fewest s s.order y h h in
            let same : best.0 ≡ x = ground (arith, best.1, e) in
            subst (λ z. attempts s z ≤ attempts s y) same best.4)
          refl,
    )

turns-Level : (rounds : ℕ) (xs : List String) → (n : ℕ) × Level n (turns rounds (new_selector xs))
unfolding turns
turns-Level zero xs = (0, new_selector-Level xs)
turns-Level (suc rounds) xs =
    let s = turns rounds (new_selector xs) in
    let before = turns-Level rounds xs in turn-Level before.0 s (select s s.order) refl before.1

record_selected-order :
    (o : Option String) (s : FairInterfaceSelector) → (record_selected o s).order ≡ s.order
unfolding record_attempt
record_selected-order none s = refl
record_selected-order (some x) s = ground arith

turns-order : (rounds : ℕ) (s : FairInterfaceSelector) → (turns rounds s).order ≡ s.order
unfolding turns
turns-order zero s = refl
turns-order (suc rounds) s =
    let later = turns rounds s in
    record_selected-order (select later later.order) later ∙ turns-order rounds s

-- However many selections are made and recorded while every interface is eligible, the numbers of
-- attempts of two interfaces differ by one at most.
pub turns_balanced :
    (rounds : ℕ) (xs : List String) (y z : String)
    → contains y xs ≡ true
    → contains z xs ≡ true
    → attempts (turns rounds (new_selector xs)) y ≤ attempts (turns rounds (new_selector xs)) z + 1
unfolding new_selector
turns_balanced rounds xs y z hy hz =
    let l = turns-Level rounds xs in
    let same = sym (turns-order rounds (new_selector xs)) in
    let known =
      λ (x : String) (h : contains x xs ≡ true). subst (λ o. contains x o ≡ true) same h in
    ground (arith, l.1.high y (known y hy), l.1.low z (known z hz))
