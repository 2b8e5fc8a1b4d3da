-- ===== src/Scheduler/Persistence/Log/Lines.antt =====
-- The lines of a log in src/scheduler/persistence.rs: `ends_with`, the bytes before the last
-- newline, and `split` at newlines, which gives a first line and the rest.
use netband.Base.{
  ℕ, zero, suc, ◌≡◌, ◌⊎◌, refl, ap, Bool, true, false, Bool-cases, inl, inr, List, [], ◌∷◌, ◌++◌,
  All, if◌then◌else◌, arith,
}
use netband.Scheduler.Persistence.Format.{Format}

module _ {B : Type 0} (w : Format B) where
  unfoldable pub ends_with_newline : List B → Bool
  ends_with_newline [] = false
  ends_with_newline (b ∷ []) = w.is_newline b
  ends_with_newline (b ∷ c ∷ bs) = ends_with_newline (c ∷ bs)

  unfoldable pub split : List B → List B × List (List B)
  split [] = ([], [])
  split (b ∷ bs) =
      let more = split bs in if w.is_newline b then ([], more.0 ∷ more.1) else (b ∷ more.0, more.1)

unfoldable pub drop_last : {B : Type 0} → List B → List B
drop_last [] = []
drop_last (b ∷ []) = []
drop_last (b ∷ c ∷ bs) = b ∷ drop_last (c ∷ bs)

pub drop_last-append : {B : Type 0} (xs : List B) (b : B) → drop_last (xs ++ b ∷ []) ≡ xs
unfolding drop_last
drop_last-append [] b = refl
drop_last-append (x ∷ []) b = refl
drop_last-append (x ∷ y ∷ xs) b = ap (λ l. x ∷ l) (drop_last-append (y ∷ xs) b)

unfoldable pub take : {B : Type 0} → ℕ → List B → List B
take zero bs = []
take (suc n) [] = []
take (suc n) (b ∷ bs) = b ∷ take n bs

module _ {B : Type 0} (w : Format B) where
  abbrev pub NoNewline : List B → Type 0
  NoNewline line = All (λ b. w.is_newline b ≡ false) line

  split-NoNewline : (line : List B) → NoNewline line → split w line ≡ (line, [])
  unfolding split
  split-NoNewline [] h = refl
  split-NoNewline (b ∷ bs) h = rw (split, h.0, split-NoNewline bs h.1) refl

  ends-append :
      (xs ys : List B) (b : B) → ends_with_newline w (xs ++ b ∷ ys) ≡ ends_with_newline w (b ∷ ys)
  unfolding ends_with_newline
  ends-append [] ys b = refl
  ends-append (x ∷ []) ys b = refl
  ends-append (x ∷ y ∷ xs) ys b = ends-append (y ∷ xs) ys b

  pub ends-append_last : (xs : List B) (b : B) → ends_with_newline w (xs ++ b ∷ []) ≡ w.is_newline b
  unfolding ends_with_newline
  ends-append_last xs b = ends-append xs [] b

  -- A line that is appended to whole lines is split off as the last.
  pub split-append :
      (bytes line : List B)
      → ends_with_newline w bytes ≡ true
      → NoNewline line
      → split w (bytes ++ line)
        ≡ ((split w (drop_last bytes)).0, (split w (drop_last bytes)).1 ++ line ∷ [])
  unfolding split drop_last ends_with_newline
  split-append [] line e h = absurd (ground arith)
  split-append (b ∷ []) line e h = rw (split, e, split-NoNewline line h) refl
  split-append (b ∷ c ∷ bytes) line e h = elim (Bool-cases (w.is_newline b)) [
    | inl yes_newline ↦ ground (arith, split-append (c ∷ bytes) line e h)
    | inr other ↦ ground (arith, split-append (c ∷ bytes) line e h)
  ]

  -- Any first part of a line with its newline is nothing, the whole, or ends inside the line.
  abbrev pub Torn : List B → List B → Type 0
  Torn line part =
      (part ≡ [])
      ⊎ (part ≡ line ++ w.newline ∷ [])
      ⊎ ((new_log : List B) × (b : B) × (part ≡ new_log ++ b ∷ []) × (w.is_newline b ≡ false))

  pub take-Torn :
      (n : ℕ) (line : List B) → NoNewline line → Torn line (take n (line ++ w.newline ∷ []))
  unfolding take
  take-Torn zero line h = inl refl
  take-Torn (suc zero) [] h = inr (inl refl)
  take-Torn (suc (suc n)) [] h = inr (inl refl)
  take-Torn (suc n) (b ∷ line) h = elim (take-Torn n line h.1) [
    | inl nothing ↦ inr (inr ([], b, ap (λ l. b ∷ l) nothing, h.0))
    | inr (inl all) ↦ inr (inl (ap (λ l. b ∷ l) all))
    | inr (inr (new_log, c, e, plain)) ↦ inr (inr (b ∷ new_log, c, ap (λ l. b ∷ l) e, plain))
  ]
