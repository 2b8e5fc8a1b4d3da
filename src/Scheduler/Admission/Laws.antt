-- ===== src/Scheduler/Admission/Laws.antt =====
-- When `block_reason` lets a start through: against an independent description of the policy.
use netband.Base.{ℕ, ◌≤◌, ◌<◌, ◌≡◌, ◌≢◌, ◌↔◌, true, false, Option, none, some, arith}
use netband.Chrono.{Chrono, Instant}
use netband.Model.{is_mlab, SchedulerAction}
use netband.Scheduler.Types.{ProviderState, SchedulerPolicy, BlockReason}
use netband.Scheduler.Time.{add_duration}
use netband.Scheduler.Admission.{runs_on_day, block_reason, mlab_daily_max}

abbrev pub NotBefore : Option Instant → Instant → Type 0
NotBefore none now = Unit
NotBefore (some t) now = t ≤ now

abbrev pub SpacedFrom : Chrono → ℕ → Option Instant → Instant → Type 0
SpacedFrom c spacing none now = Unit
SpacedFrom c spacing (some last) now = add_duration c last spacing ≤ now

-- What the documentation promises of a start at `now`: M-Lab's cap always, and without `--force`
-- the configured cap, the cooldown and the spacing.
pub record Admissible (c : Chrono) (policy : SchedulerPolicy) (state : ProviderState)
    (now : Instant) : Type 0 where
  pub hard_cap :
      is_mlab policy.provider_kind ≡ true → runs_on_day c state (c.date_naive now) < mlab_daily_max
  pub daily_cap :
      policy.force_limits ≡ false → runs_on_day c state (c.date_naive now) < policy.daily_max
  pub cooldown : policy.force_limits ≡ false → NotBefore state.cooldown_until_utc now
  pub spacing :
      policy.force_limits ≡ false → SpacedFrom c policy.min_spacing state.last_started_at_utc now

-- `block_reason` lets a start through exactly when it is admissible.
pub block_reason-none_iff :
    (c : Chrono) (policy : SchedulerPolicy) (state : ProviderState) (now : Instant)
    → (block_reason c policy state now ≡ none) ↔ Admissible c policy state now
unfolding block_reason
block_reason-none_iff c policy state now = (λ h. ground arith, λ h. ground arith)

-- Where a block names the time at which it ends, it is a deferral, that time is ahead, and the policy
-- lets no start through before it in the same state.
pub block_reason-not_before :
    (c : Chrono) (policy : SchedulerPolicy) (state : ProviderState) (now until before : Instant)
    (b : BlockReason)
    → block_reason c policy state now ≡ some b
    → b.cooldown_until ≡ some until
    → before < until
    → (b.action ≡ SchedulerAction.deferred)
      × (now < until)
      × (block_reason c policy state before ≢ none)
unfolding block_reason
block_reason-not_before c policy state now until before b h e early =
    (ground arith, ground arith, λ free. ground arith)
