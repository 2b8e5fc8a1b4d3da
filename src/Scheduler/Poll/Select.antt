-- ===== src/Scheduler/Poll/Select.antt =====
-- src/scheduler.rs: what `poll_interfaces` selects from the state: expired triggers, the due slot,
-- and `oldest_eligible_pending_trigger`.
use netband.Base.{
  Bool, false, not, ◌&&◌, Option, none, some, List, [], ◌∷◌, String, ltb, leb, ◌==◌, if◌then◌else◌,
  retain, first, str_eq,
}
use netband.Chrono.{Instant}
use netband.Dict.{Dict, get}
use netband.Scheduler.Types.{ProviderState, PendingTrigger, InterfaceTriggerState}

-- The keys whose pending trigger is past its time to live, in the order of the map.
unfoldable pub expired_triggers :
    Instant → Dict InterfaceTriggerState → List (String × PendingTrigger)
expired_triggers now [] = []
expired_triggers now ((key, state) ∷ rest) = elim state.pending [
  | none ↦ expired_triggers now rest
  | some trigger ↦
      if leb trigger.expires_at_utc now
      then (key, trigger) ∷ expired_triggers now rest
      else expired_triggers now rest
]

-- `get_mut(key)` and `trigger.pending = None`; the latch is kept.
unfoldable pub unset_pending : String → Dict InterfaceTriggerState → Dict InterfaceTriggerState
unset_pending key [] = []
unset_pending key ((j, state) ∷ rest) =
    if str_eq j key
    then (j, record state { pending = none }) ∷ rest
    else (j, state) ∷ unset_pending key rest

unfoldable pub unset_all :
    List (String × PendingTrigger) → Dict InterfaceTriggerState → Dict InterfaceTriggerState
unset_all [] triggers = triggers
unset_all ((key, _) ∷ rest) triggers = unset_all rest (unset_pending key triggers)

unfoldable pub clear_expired : List (String × PendingTrigger) → ProviderState → ProviderState
unfolding unset_all
clear_expired expired state = record state {
  interface_triggers = unset_all expired state.interface_triggers;
}

unfoldable pub remove_slot : Instant → ProviderState → ProviderState
remove_slot slot state = record state {
  slots = retain (λ candidate. not (candidate == slot)) state.slots;
}

-- `if let Some(first) = slots.first()`.
abbrev remove_if_some : Option Instant → ProviderState → ProviderState
remove_if_some none state = state
remove_if_some (some slot) state = remove_slot slot state

unfoldable pub remove_first_slot : ProviderState → ProviderState
unfolding remove_slot
remove_first_slot state = remove_if_some (first state.slots) state

unfoldable pub remove_due_slots : Instant → ProviderState → ProviderState
remove_due_slots now state = record state {
  slots = retain (λ candidate. ltb now candidate) state.slots;
}

-- `due_slots.first()`.
unfoldable pub due_slot : Instant → ProviderState → Option Instant
due_slot now state = first (retain (λ slot. leb slot now) state.slots)

abbrev pub or_false : Option Bool → Bool
or_false none = false
or_false (some b) = b

-- The pending triggers that may start now, in the order of the map.
unfoldable pub eligible :
    Dict Bool → Bool → Dict InterfaceTriggerState → List (String × PendingTrigger)
eligible latest_success allow [] = []
eligible latest_success allow ((key, state) ∷ rest) =
    if not allow && not (or_false (get key latest_success))
    then eligible latest_success allow rest
    else elim state.pending [
      | none ↦ eligible latest_success allow rest
      | some pending ↦ (key, pending) ∷ eligible latest_success allow rest
    ]

-- `min_by_key`, which returns the first of equal minima.
abbrev pub earlier :
    String × PendingTrigger → Option (String × PendingTrigger) → Option (String × PendingTrigger)
earlier x none = some x
earlier x (some y) = if ltb (y.1).created_at_utc (x.1).created_at_utc then some y else some x

unfoldable pub oldest : List (String × PendingTrigger) → Option (String × PendingTrigger)
oldest [] = none
oldest (x ∷ xs) = earlier x (oldest xs)

unfoldable pub oldest_eligible :
    Dict Bool → Bool → Dict InterfaceTriggerState → Option (String × PendingTrigger)
unfolding oldest eligible
oldest_eligible latest_success allow triggers = oldest (eligible latest_success allow triggers)
