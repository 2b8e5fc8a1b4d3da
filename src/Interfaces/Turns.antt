-- ===== src/Interfaces/Turns.antt =====
-- The turns that the selector of src/interfaces.rs gives.
use netband.Base.{
  ℕ, ◌+◌, ◌≤◌, ◌≡◌, ◌⊎◌, refl, sym, ap, subst, true, Bool-cases, Option-cases, inl, inr, Option,
  none, some, List, [], ◌∷◌, String, str_eq_iff, arith,
}
use netband.Interfaces.{
  FairInterfaceSelector, Candidate, contains, precedes, better, least, candidate, candidates,
  interface_of, select, attempts,
}

better-least :
    (a : Candidate) (o : Option Candidate)
    → (b : Candidate) × (better a o ≡ some b)
      × (b.attempts ≤ a.attempts)
      × ((c : Candidate) → o ≡ some c → b.attempts ≤ c.attempts)
better-least a none = (a, refl, ground arith, λ c e. absurd (ground arith))
better-least a (some b) = elim (Bool-cases (precedes b a)) [
  | inl before ↦ (b, ground arith, ground arith, λ c e. ground arith)
  | inr after ↦ (a, ground arith, ground arith, λ c e. ground arith)
]

better-from :
    (a b : Candidate) (o : Option Candidate) → better a o ≡ some b → (b ≡ a) ⊎ (o ≡ some b)
better-from a b none h = inl (ground arith)
better-from a b (some c) h = elim (Bool-cases (precedes c a)) [
  | inl before ↦ inr (ground arith)
  | inr after ↦ inl (ground arith)
]

-- An interface that is eligible has no fewer attempts than the least candidate.
least-candidates :
    (s : FairInterfaceSelector) (eligible order : List String) (index : ℕ) (y : String)
    → contains y order ≡ true
    → contains y eligible ≡ true
    → (b : Candidate) × (least (candidates s eligible index order) ≡ some b)
      × (b.attempts ≤ attempts s y)
unfolding attempts
least-candidates s eligible [] index y h e = absurd (ground arith)
least-candidates s eligible (x ∷ xs) index y h e =
    let p = better-least (candidate s index x) (least (candidates s eligible (index + 1) xs)) in
    elim (Bool-cases (contains y xs)) [
      | inl later ↦
          let rest = least-candidates s eligible xs (index + 1) y later e in
          elim (Bool-cases (contains x eligible)) [
            | inl wanted ↦ (p.0, ground (arith, p.1), ground (arith, p.3 rest.0 rest.1, rest.2))
            | inr unwanted ↦ (rest.0, ground (arith, rest.1), rest.2)
          ]
      | inr here ↦
          let same : y ≡ x = ground (arith, str_eq_iff y x) in
          let wanted : contains x eligible ≡ true =
            subst (λ z. contains z eligible ≡ true) same e in
          let few : p.0.attempts ≤ attempts s y =
            subst (λ z. p.0.attempts ≤ attempts s z) (sym same) p.2 in
          (p.0, ground (arith, p.1, wanted), few)
    ]

-- What is selected is eligible, and is counted with its attempts.
pub record IsCandidate (s : FairInterfaceSelector) (eligible order : List String) (b : Candidate)
    : Type 0 where
  pub ordered : contains b.interface order ≡ true
  pub wanted : contains b.interface eligible ≡ true
  pub counted : b.attempts ≡ attempts s b.interface

candidate-IsCandidate :
    (s : FairInterfaceSelector) (eligible xs : List String) (index : ℕ) (x : String)
    → contains x eligible ≡ true
    → IsCandidate s eligible (x ∷ xs) (candidate s index x)
unfolding attempts
candidate-IsCandidate s eligible xs index x h = record {
  ordered = ground (arith, str_eq_iff x x);
  wanted = h;
  counted = refl;
}

IsCandidate-later :
    (s : FairInterfaceSelector) (eligible xs : List String) (x : String) (b : Candidate)
    → IsCandidate s eligible xs b
    → IsCandidate s eligible (x ∷ xs) b
IsCandidate-later s eligible xs x b c = record {
  ordered = ground (arith, c.ordered);
  wanted = c.wanted;
  counted = c.counted;
}

least-IsCandidate :
    (s : FairInterfaceSelector) (eligible order : List String) (index : ℕ) (b : Candidate)
    → least (candidates s eligible index order) ≡ some b
    → IsCandidate s eligible order b
least-IsCandidate s eligible [] index b h = absurd (ground arith)
least-IsCandidate s eligible (x ∷ xs) index b h =
    let later = candidates s eligible (index + 1) xs in
    elim (Bool-cases (contains x eligible)) [
      | inl wanted ↦ elim (better-from (candidate s index x) b (least later) (ground arith)) [
        | inl first ↦
            subst (IsCandidate s eligible (x ∷ xs)) (sym first)
              (candidate-IsCandidate s eligible xs index x wanted)
        | inr rest ↦
            IsCandidate-later s eligible xs x b (least-IsCandidate s eligible xs (index + 1) b rest)
      ]
      | inr unwanted ↦
          IsCandidate-later s eligible xs x b
            (least-IsCandidate s eligible xs (index + 1) b (ground arith))
    ]

-- `select` chooses an eligible interface that has as few attempts as any, and none only if none of
-- the interfaces is eligible.
pub select-fewest :
    (s : FairInterfaceSelector) (eligible : List String) (y : String)
    → contains y s.order ≡ true
    → contains y eligible ≡ true
    → (x : String) × (select s eligible ≡ some x)
      × (contains x s.order ≡ true)
      × (contains x eligible ≡ true)
      × (attempts s x ≤ attempts s y)
unfolding select
select-fewest s eligible y h e =
    let c = least-candidates s eligible s.order 0 y h e in
    let k = least-IsCandidate s eligible s.order 0 c.0 c.1 in
    (
      c.0.interface,
      ap interface_of c.1,
      k.ordered,
      k.wanted,
      subst (λ n. n ≤ attempts s y) k.counted c.2,
    )

pub select-contains :
    (s : FairInterfaceSelector) (eligible : List String) (x : String)
    → select s eligible ≡ some x
    → (contains x s.order ≡ true) × (contains x eligible ≡ true)
unfolding select
select-contains s eligible x h = elim (Option-cases (least (candidates s eligible 0 s.order))) [
  | inl nothing ↦ absurd (ground (arith, nothing))
  | inr (c, e) ↦
      let k = least-IsCandidate s eligible s.order 0 c e in
      let same : c.interface ≡ x = ground (arith, e) in
      (
        subst (λ y. contains y s.order ≡ true) same k.ordered,
        subst (λ y. contains y eligible ≡ true) same k.wanted,
      )
]
