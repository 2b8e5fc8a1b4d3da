-- ===== src/Scheduler/Trigger/Laws.antt =====
-- The triggers of src/scheduler.rs after a health decision.
use netband.Base.{
  ◌||◌, ◌≡◌, refl, sym, ap, ◌∙◌, subst, Bool, true, false, Bool-cases, inl, inr, Option, none, some,
  String, arith, if◌then◌else◌, str_eq, str_eq_iff,
}
use netband.Chrono.{Chrono, Instant}
use netband.Dict.{get-insert}
use netband.Health.{HealthDecision, HealthSnapshot, DegradationReason}
use netband.Model.{TriggerReason}
use netband.Scheduler.Types.{PendingTrigger, ProviderState, InterfaceTriggerState}
use netband.Scheduler.Admission.{interface_key}
use netband.Scheduler.Store.{
  Storage, Scheduler, M, Result, ok, err, save, persist, reply, continue, ◌>>=◌, ◌>>◌,
}
use netband.Scheduler.Trigger.{
  is_some, default_trigger, interface_trigger, set_trigger, latch, disarm, on_degraded,
  on_recovered, on_decision, cancelled_events,
}

-- Writing the trigger of an interface is read back, and the other interfaces keep theirs.
interface_trigger-set_trigger :
    (state : ProviderState) (i j : Option String) (t : InterfaceTriggerState)
    → interface_trigger (set_trigger state i t) j
      ≡ (if str_eq (interface_key i) (interface_key j) then t else interface_trigger state j)
unfolding interface_trigger set_trigger
interface_trigger-set_trigger state i j t =
    ground (arith, get-insert (interface_key i) (interface_key j) t state.interface_triggers)

str_eq_refl : (k : String) → str_eq k k ≡ true
str_eq_refl k = (str_eq_iff k k).1 refl

latch_latched :
    (why : TriggerReason) (interface : Option String) (now expires_at : Instant) (a : ProviderState)
    → (interface_trigger (latch why interface now expires_at a) interface).latched ≡ true
unfolding latch
latch_latched why interface now expires_at a = rw (interface_trigger-set_trigger, str_eq_refl) refl

continue-state :
    {D A : Type 0} (next : M D A) (r : Scheduler D × Result (Unit {0}))
    → ((t : Scheduler D) → (next t).0.state ≡ t.state)
    → (continue (λ _. next) r).0.state ≡ r.0.state
continue-state next (t, ok a) keeps = keeps t
continue-state next (t, err e) keeps = refl

save-state :
    {D A : Type 0} (w : Storage D) (f : ProviderState → ProviderState) (next : M D A)
    (s : Scheduler D)
    → ((t : Scheduler D) → (next t).0.state ≡ t.state)
    → (save w f next s).0.state ≡ f s.state
unfolding save persist ◌>>=◌ ◌>>◌
save-state w f next s = continue-state next (persist w (record s { state = f s.state }))

fields-default :
    (p : Option PendingTrigger) (b : Bool)
    → (is_some p || b) ≡ false
    → record { pending = p; latched = b } ≡ default_trigger
fields-default none true e = absurd (ground arith)
fields-default none false e = refl
fields-default (some p) b e = absurd (ground arith)

module _ {D : Type 0} (c : Chrono) (w : Storage D) (run_id : String) where
  -- A degraded decision leaves the interface latched, whether or not the write succeeds.
  pub latched_after :
      (now : Instant) (interface : Option String) (seen : HealthSnapshot) (why : DegradationReason)
      (s : Scheduler D)
      → (interface_trigger
          (on_decision c w run_id now interface (HealthDecision.degraded seen why) s).0.state
          interface).latched
        ≡ true
  unfolding on_decision on_degraded reply
  latched_after now interface seen why s =
      elim (Bool-cases (interface_trigger s.state interface).latched) [
        | inl on ↦ rw (on_decision, on) on
        | inr off ↦
            rw (on_decision, off, on_degraded)
              (subst (λ a. (interface_trigger a interface).latched ≡ true)
                (sym (save-state w _ _ s (λ t. refl))) (latch_latched _ _ _ _ _))
      ]

  cancelled-keeps :
      (now : Instant) (interface : Option String) (p : Option PendingTrigger) (s : Scheduler D)
      → (cancelled_events c w run_id now interface p s).0.state ≡ s.state
  unfolding cancelled_events reply
  cancelled-keeps now interface none s = refl
  cancelled-keeps now interface (some p) s = refl

  disarm_default :
      (interface : Option String) (a : ProviderState)
      → interface_trigger (disarm interface a) interface ≡ default_trigger
  unfolding disarm
  disarm_default interface a = rw (interface_trigger-set_trigger, str_eq_refl) refl

  -- A recovery leaves the interface with no pending trigger and no latch.
  pub recovered_default :
      (now : Instant) (interface : Option String) (seen : HealthSnapshot) (s : Scheduler D)
      → interface_trigger
          (on_decision c w run_id now interface (HealthDecision.recovered seen) s).0.state
          interface
        ≡ default_trigger
  unfolding on_decision on_recovered
  recovered_default now interface seen s =
      let trigger = interface_trigger s.state interface in
      let next = cancelled_events c w run_id now interface trigger.pending in
      elim (Bool-cases (is_some trigger.pending || trigger.latched)) [
        | inl on ↦
            rw (on_recovered, on)
              (subst (λ a. interface_trigger a interface ≡ default_trigger)
                (sym (
                  save-state w (disarm interface) next s
                    (cancelled-keeps now interface trigger.pending)))
                (disarm_default interface s.state))
        | inr off ↦
            rw (on_recovered, off)
              (subst (λ a. interface_trigger a interface ≡ default_trigger)
                (sym (cancelled-keeps now interface trigger.pending s))
                (fields-default trigger.pending trigger.latched off))
      ]

  latch-others :
      (why : TriggerReason) (i j : Option String) (now expires_at : Instant) (a : ProviderState)
      → str_eq (interface_key i) (interface_key j) ≡ false
      → interface_trigger (latch why i now expires_at a) j ≡ interface_trigger a j
  unfolding latch interface_trigger
  latch-others why i j now expires_at a other = rw (interface_trigger-set_trigger, other) refl

  disarm-others :
      (i j : Option String) (a : ProviderState)
      → str_eq (interface_key i) (interface_key j) ≡ false
      → interface_trigger (disarm i a) j ≡ interface_trigger a j
  unfolding disarm
  disarm-others i j a other = rw (interface_trigger-set_trigger, other) refl

  -- A decision about one interface leaves the triggers of the others as they are.
  pub on_decision-others :
      (now : Instant) (i j : Option String) (decision : HealthDecision) (s : Scheduler D)
      → str_eq (interface_key i) (interface_key j) ≡ false
      → interface_trigger (on_decision c w run_id now i decision s).0.state j
        ≡ interface_trigger s.state j
  unfolding on_decision reply
  on_decision-others now i j (HealthDecision.healthy seen) s other = refl
  on_decision-others now i j (HealthDecision.degraded seen why) s other =
      elim (Bool-cases (interface_trigger s.state i).latched) [
        | inl on ↦ rw (on_decision, on) refl
        | inr off ↦
            rw (on_decision, off, on_degraded)
              (ap (λ a. interface_trigger a j) (save-state w _ _ s (λ t. refl))
                ∙ latch-others _ i j now _ s.state other)
      ]
  on_decision-others now i j (HealthDecision.recovered seen) s other =
      let trigger = interface_trigger s.state i in
      let next = cancelled_events c w run_id now i trigger.pending in
      elim (Bool-cases (is_some trigger.pending || trigger.latched)) [
        | inl on ↦
            rw (on_recovered, on)
              (ap (λ a. interface_trigger a j)
                  (save-state w (disarm i) next s (cancelled-keeps now i trigger.pending))
                ∙ disarm-others i j s.state other)
        | inr off ↦
            rw (on_recovered, off)
              (ap (λ a. interface_trigger a j) (cancelled-keeps now i trigger.pending s))
      ]
