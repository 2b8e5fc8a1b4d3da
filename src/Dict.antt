-- ===== src/Dict.antt =====
-- `BTreeMap<String, V>` as the list of its entries in the order of their keys.
use Prim.Native.String.{compare}
use Prim.Native.Nat.{Ordering}
use netband.Base.{
  Option, none, some, List, [], ◌∷◌, ◌≡◌, refl, String, str_eq, str_eq_iff, arith, if◌then◌else◌,
}

abbrev pub Dict {ℓ} : Type ℓ → Type ℓ
Dict V = List (String × V)

module _ {ℓ} {V : Type ℓ} where
  unfoldable pub get : String → Dict V → Option V
  get k [] = none
  get k ((j, v) ∷ m) = if str_eq j k then some v else get k m

  unfoldable pub insert : String → V → Dict V → Dict V
  insert k v [] = (k, v) ∷ []
  insert k v ((j, w) ∷ m) = elim (compare k j) [
    | Ordering.lt ↦ (k, v) ∷ (j, w) ∷ m
    | Ordering.eq ↦ (k, v) ∷ m
    | Ordering.gt ↦ (j, w) ∷ insert k v m
  ]

  pub get-insert :
      (k j : String) (v : V) (m : Dict V)
      → get j (insert k v m) ≡ (if str_eq k j then some v else get j m)
  unfolding get insert
  get-insert k j v [] = refl
  get-insert k j v ((i, w) ∷ m) =
      ground
        (arith, str_eq_iff k j, str_eq_iff i k, str_eq_iff i j, str_eq_iff k i, get-insert k j v m)
