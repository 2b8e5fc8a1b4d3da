-- ===== src/Interfaces.antt =====
-- src/interfaces.rs: `resolve_from`, and the selector that takes turns between interfaces. A set of
-- names is a list; the addresses and interfaces of the if_addrs crate are a type with its tests.
pub mod Resolve
pub mod Turns
pub mod Balance
use netband.Base.{
  ℕ, ◌+◌, ◌-◌, ◌^◌, ◌%◌, min, Bool, true, false, not, ◌&&◌, ◌||◌, Option, none, some, List, [], ◌∷◌,
  String, str_eq, ltb, leb, ◌==◌, if◌then◌else◌, ◌⊎◌, inl, inr,
}
use netband.Dict.{Dict, get, insert}

pub data InterfaceError : Type 0 where
  inspect missing down addressless : String → InterfaceError

-- What is used of if_addrs and of the addresses of the standard library, whose order is given by
-- the sort.
pub record Addresses (I A : Type 0) : Type 0 where
  pub name : I → String
  pub is_oper_up : I → Bool
  pub ip : I → A
  pub is_unspecified : A → Bool
  pub sort : List A → List A
  pub same : A → A → Bool

pub record ResolvedInterface (A : Type 0) : Type 0 where
  pub name : String
  pub addresses : List A

module _ {I A : Type 0} (n : Addresses I A) where
  named : String → List I → List I
  named name [] = []
  named name (i ∷ is) =
      let rest = named name is in if str_eq (n.name i) name then i ∷ rest else rest

  any_up : List I → Bool
  any_up [] = false
  any_up (i ∷ is) = n.is_oper_up i || any_up is

  usable : List I → List A
  usable [] = []
  usable (i ∷ is) =
      let rest = usable is in
      if n.is_oper_up i && not (n.is_unspecified (n.ip i)) then n.ip i ∷ rest else rest

  -- `dedup` keeps the first of equal neighbours.
  dedup_after : A → List A → List A
  dedup_after a [] = []
  dedup_after a (b ∷ bs) =
      let rest = dedup_after b bs in if n.same a b then dedup_after a bs else b ∷ rest

  dedup : List A → List A
  unfolding dedup_after
  dedup [] = []
  dedup (a ∷ rest) = a ∷ dedup_after a rest

  with_addresses : String → List A → InterfaceError ⊎ ResolvedInterface A
  with_addresses name [] = inl (InterfaceError.addressless name)
  with_addresses name (a ∷ rest) = inr (record { name = name; addresses = a ∷ rest })

  resolve_named : String → List I → InterfaceError ⊎ ResolvedInterface A
  unfolding any_up usable dedup with_addresses
  resolve_named name [] = inl (InterfaceError.missing name)
  resolve_named name (i ∷ is) =
      if any_up (i ∷ is)
      then with_addresses name (dedup (n.sort (usable (i ∷ is))))
      else inl (InterfaceError.down name)

  unfoldable pub resolve_from : String → List I → InterfaceError ⊎ ResolvedInterface A
  unfolding named resolve_named
  resolve_from name interfaces = resolve_named name (named name interfaces)

pub record FairnessState : Type 0 where
  pub attempts : ℕ
  pub last_turn : Option ℕ

abbrev pub default_fairness : FairnessState
default_fairness = record { attempts = 0; last_turn = none }

pub record FairInterfaceSelector : Type 0 where
  pub order : List String
  pub state : Dict FairnessState
  pub turn : ℕ

abbrev pub turn_limit : ℕ
turn_limit = 2 ^ 64 - 1

-- `HashSet::contains`.
abbrev pub contains : String → List String → Bool
contains x [] = false
contains x (y ∷ ys) = str_eq x y || contains x ys

unfoldable pub no_attempts : List String → Dict FairnessState
no_attempts [] = []
no_attempts (x ∷ xs) = insert x default_fairness (no_attempts xs)

unfoldable pub new_selector : List String → FairInterfaceSelector
new_selector interfaces = record { order = interfaces; state = no_attempts interfaces; turn = 0 }

abbrev pub fairness_or_default : Option FairnessState → FairnessState
fairness_or_default none = default_fairness
fairness_or_default (some state) = state

abbrev pub or_zero : Option ℕ → ℕ
or_zero none = 0
or_zero (some n) = n

-- An interface with the key by which it is chosen.
pub record Candidate : Type 0 where
  pub attempts : ℕ
  pub last_turn : ℕ
  pub index : ℕ
  pub interface : String

abbrev pub precedes : Candidate → Candidate → Bool
precedes a b =
    ltb a.attempts b.attempts
    || a.attempts == b.attempts
      && (ltb a.last_turn b.last_turn || a.last_turn == b.last_turn && ltb a.index b.index)

abbrev pub better : Candidate → Option Candidate → Option Candidate
better a none = some a
better a (some b) = if precedes b a then some b else some a

-- `min_by_key`.
abbrev pub least : List Candidate → Option Candidate
least [] = none
least (a ∷ rest) = better a (least rest)

unfoldable pub attempts : FairInterfaceSelector → String → ℕ
attempts s interface = (fairness_or_default (get interface s.state)).attempts

abbrev pub candidate : FairInterfaceSelector → ℕ → String → Candidate
candidate s index interface = record {
  attempts = (fairness_or_default (get interface s.state)).attempts;
  last_turn = or_zero (fairness_or_default (get interface s.state)).last_turn;
  index = index;
  interface = interface;
}

abbrev pub candidates : FairInterfaceSelector → List String → ℕ → List String → List Candidate
candidates s eligible index [] = []
candidates s eligible index (x ∷ xs) =
    let rest = candidates s eligible (index + 1) xs in
    if contains x eligible then candidate s index x ∷ rest else rest

abbrev pub interface_of : Option Candidate → Option String
interface_of none = none
interface_of (some c) = some c.interface

unfoldable pub select : FairInterfaceSelector → List String → Option String
select s eligible = interface_of (least (candidates s eligible 0 s.order))

abbrev pub next_turn : FairInterfaceSelector → ℕ
next_turn s = (s.turn + 1) % 2 ^ 64

abbrev pub attempted : ℕ → FairnessState → FairnessState
attempted turn state = record {
  attempts = min (state.attempts + 1) turn_limit;
  last_turn = some turn;
}

abbrev record_known : String → Option FairnessState → FairInterfaceSelector → FairInterfaceSelector
record_known interface none s = s
record_known interface (some state) s = record s {
  turn = next_turn s;
  state = insert interface (attempted (next_turn s) state) s.state;
}

unfoldable pub record_attempt : String → FairInterfaceSelector → FairInterfaceSelector
record_attempt interface s = record_known interface (get interface s.state) s
