-- ===== src/Scheduler/Store.antt =====
-- src/scheduler.rs: the `Scheduler` object and the effects of its methods. A method is a function
-- of the object that returns the object after it with a result: a failed method may have changed
-- the state in memory. `state` is the active provider's entry of the store, `others` the store.
use netband.Base.{Bool}
use netband.Dict.{Dict, insert}
use netband.Scheduler.Types.{ProviderState, SchedulerPolicy, SchedulerError}

pub data Result {ℓ} (A : Type ℓ) : Type ℓ where
  ok : A → Result A
  err : SchedulerError → Result A

-- `BTreeMap<String, ProviderState>`, the providers of a `SchedulerStore`.
abbrev pub Providers : Type 0
Providers = Dict ProviderState

-- What the scheduler uses of scheduler/persistence.rs, over its type `D` of files and bookkeeping.
pub record Storage (D : Type 0) : Type 0 where
  pub load : D → D × Result (Providers × Bool)  -- `Persistence::open`
  pub needs_snapshot : D → Providers → Bool
  pub write : D → Providers → D × Result (Unit {0})  -- `Persistence::persist`
  pub changed : ProviderState → ProviderState → Bool  -- the two JSON texts differ

pub record Scheduler (D : Type 0) : Type 0 where
  pub disk : D
  pub others : Providers
  pub state : ProviderState
  pub policy : SchedulerPolicy

abbrev pub M : Type 0 → Type 0 → Type 0
M D A = Scheduler D → Scheduler D × Result A

abbrev pub continue :
    {D A B : Type 0} → (A → M D B) → Scheduler D × Result A → Scheduler D × Result B
continue f (s, ok a) = f a s
continue f (s, err e) = (s, err e)

infixl 5 ◌>>=◌ ◌>>◌
unfoldable pub ◌>>=◌ : {D A B : Type 0} → M D A → (A → M D B) → M D B
◌>>=◌ m f s = continue f (m s)

unfoldable pub ◌>>◌ : {D B : Type 0} → M D (Unit {0}) → M D B → M D B
unfolding ◌>>=◌
m >> k = m >>= λ _. k

abbrev pub pure : {D A : Type 0} → A → M D A
pure a s = (s, ok a)

abbrev pub modify : {D : Type 0} → (ProviderState → ProviderState) → M D (Unit {0})
modify f s = (record s { state = f s.state }, ok tt)

-- The store that is written: the active entry put back among the others.
abbrev pub store : {D : Type 0} → Scheduler D → Providers
store s = insert s.policy.provider_id s.state s.others

-- `Scheduler::persist`.
unfoldable pub persist : {D : Type 0} → Storage D → M D (Unit {0})
persist w s = let (d, r) = w.write s.disk (store s) in (record s { disk = d }, r)

-- A result computed from the object, which stays.
unfoldable pub reply : {D A : Type 0} → (Scheduler D → A) → M D A
reply f s = (s, ok (f s))

-- A change of the state, written at once; where the write fails the method ends with its error.
unfoldable pub save : {D A : Type 0} → Storage D → (ProviderState → ProviderState) → M D A → M D A
unfolding persist ◌>>=◌ ◌>>◌
save w f next = do modify f; persist w; next
