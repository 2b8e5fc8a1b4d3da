-- ===== src/Scheduler/Change/Rules.antt =====
-- What a method does to the state, as a property of its program: rules for the effects that the
-- methods are made of.
use mathlib.Core.Path.{subst}
use netband.Base.{◌≡◌}
use netband.Chrono.{Chrono, Instant}
use netband.Scheduler.Types.{ProviderState, SchedulerPolicy}
use netband.Scheduler.Store.{
  Storage, Scheduler, M, Result, ok, err, continue, ◌>>=◌, persist, save, reply,
}
use netband.Scheduler.Change.{Change, same, chain}

-- From `s` to `t` by changes under the policy `p`, which stays.
abbrev pub Moves :
    {D : Type 0} → Chrono → SchedulerPolicy → Instant → Scheduler D → Scheduler D → Type 0
Moves c p now s t = Change c p now s.state t.state × (t.policy ≡ p)

-- Run under the policy `p`, the program moves the state by changes.
abbrev pub Does : {D A : Type 0} → Chrono → SchedulerPolicy → Instant → M D A → Type 0
Does {D = D} c p now m = (s : Scheduler D) → s.policy ≡ p → Moves c p now s (m s).0

abbrev pub DoesAt : {D A : Type 0} → Chrono → Instant → M D A → Scheduler D → Type 0
DoesAt c now m s = Moves c s.policy now s (m s).0

module _ {D : Type 0} (c : Chrono) (p : SchedulerPolicy) (now : Instant) where
  pub Does-continue :
      {A B : Type 0} (f : A → M D B) (s : Scheduler D) (r : Scheduler D × Result A)
      → ((a : A) → Does c p now (f a))
      → Moves c p now s r.0
      → Moves c p now s (continue f r).0
  Does-continue f s (t, ok a) next m = let after = next a t m.1 in (chain m.0 after.0, after.1)
  Does-continue f s (t, err e) next m = m

  pub Does-bind :
      {A B : Type 0} (m : M D A) (f : A → M D B)
      → Does c p now m
      → ((a : A) → Does c p now (f a))
      → Does c p now (m >>= f)
  unfolding ◌>>=◌
  Does-bind m f first next s e = Does-continue f s (m s) next (first s e)

  pub Does-reply : {A : Type 0} (f : Scheduler D → A) → Does c p now (reply f)
  unfolding reply
  Does-reply f s e = (same, e)

  pub Moves-save :
      {A : Type 0} (w : Storage D) (f : ProviderState → ProviderState) (next : M D A)
      (s : Scheduler D)
      → s.policy ≡ p
      → Change c p now s.state (f s.state)
      → Does c p now next
      → Moves c p now s (save w f next s).0
  unfolding save
  Moves-save w f next s e change rest =
      Does-continue (λ _. next) s (persist w (record s { state = f s.state })) (λ _. rest)
        (change, e)

  pub Does-save :
      {A : Type 0} (w : Storage D) (f : ProviderState → ProviderState) (next : M D A)
      → ((a : ProviderState) → Change c p now a (f a))
      → Does c p now next
      → Does c p now (save w f next)
  Does-save w f next change rest s e = Moves-save w f next s e (change s.state) rest

  pub Does-at : {A : Type 0} (m : M D A) → ((s : Scheduler D) → DoesAt c now m s) → Does c p now m
  Does-at m h s e = subst (λ q. Moves c q now s (m s).0) e (h s)
