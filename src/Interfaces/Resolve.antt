-- ===== src/Interfaces/Resolve.antt =====
-- src/interfaces.rs: `resolve_from` for each configured name. What if_addrs lists, or the text of
-- its error, is given.
use netband.Base.{List, [], ◌∷◌, String, ◌⊎◌, inl, inr}
use netband.Interfaces.{InterfaceError, ResolvedInterface, Addresses, resolve_from}

abbrev inspected : {I : Type 0} → String ⊎ List I → InterfaceError ⊎ List I
inspected (inl message) = inl (InterfaceError.inspect message)
inspected (inr interfaces) = inr interfaces

abbrev prepend_resolved :
    {A : Type 0}
    → InterfaceError ⊎ ResolvedInterface A
    → InterfaceError ⊎ List (ResolvedInterface A)
    → InterfaceError ⊎ List (ResolvedInterface A)
prepend_resolved (inl e) rest = inl e
prepend_resolved (inr r) (inl e) = inl e
prepend_resolved (inr r) (inr rs) = inr (r ∷ rs)

module _ {I A : Type 0} (n : Addresses I A) where
  -- `collect`: the first error stops.
  resolve_all : List String → List I → InterfaceError ⊎ List (ResolvedInterface A)
  resolve_all [] interfaces = inr []
  resolve_all (name ∷ names) interfaces =
      prepend_resolved (resolve_from n name interfaces) (resolve_all names interfaces)

  resolve_listed :
      List String → InterfaceError ⊎ List I → InterfaceError ⊎ List (ResolvedInterface A)
  unfolding resolve_all
  resolve_listed names (inl e) = inl e
  resolve_listed names (inr interfaces) = resolve_all names interfaces

  unfoldable pub resolve_configured_with :
      List String → String ⊎ List I → InterfaceError ⊎ List (ResolvedInterface A)
  unfolding resolve_listed
  resolve_configured_with [] inspect = inr []
  resolve_configured_with (name ∷ names) inspect = resolve_listed (name ∷ names) (inspected inspect)
