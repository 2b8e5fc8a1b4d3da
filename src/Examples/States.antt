-- ===== src/Examples/States.antt =====
-- The policy, the validation of states and the opening of a scheduler at concrete inputs.
use netband.Base.{
  ◌*◌, ◌<◌, ◌≡◌, ◌≢◌, ◌↔◌, refl, subst, Bool, false, none, some, List, [], ◌∷◌, arith,
}
use netband.Base.Sorting.{unsorted}
use netband.Chrono.{Instant}
use netband.Dict.{get, insert}
use netband.Chrono.Utc.{utc}
use netband.Model.{ErrorKind, SchedulerAction, SchedulerReason, Message}
use netband.Scheduler.Types.{BlockReason, SchedulerPolicy, ProviderState}
use netband.Scheduler.Time.{duration_millis, add_duration}
use netband.Scheduler.Store.{Scheduler, Providers, ok, persist}
use netband.Scheduler.Plan.{plan_full_day, plan_interval, earliest_start, total_ms}
use netband.Scheduler.Admission.{block_reason, runs_on_day}
use netband.Scheduler.Admission.Laws.{Admissible, block_reason-none_iff, block_reason-not_before}
use netband.Scheduler.Trace.{Call, reserves, polls, run}
use netband.Scheduler.Trace.Valid.{run_accepted}
use netband.Scheduler.Change.Validity.{IsValid, is_invalid, is_invalid-false_iff}
use netband.Scheduler.Open.{open_seeded, reconcile, new_provider, unplanned}
use netband.Scheduler.Open.Laws.{EntryIsValid, open_seeded-IsValid}
use netband.Examples.Fixtures.{memory, policy, second, idle, due, full}

block_reason-none_iff_example :
    (block_reason utc policy due.state (6 * second) ≡ none)
    ↔ Admissible utc policy due.state (6 * second)
block_reason-none_iff_example = block_reason-none_iff utc policy due.state (6 * second)

abbrev close_start : BlockReason
close_start = record {
  action = SchedulerAction.deferred;
  reason = SchedulerReason.minimum_spacing;
  kind = ErrorKind.provider_cooldown;
  cooldown_until = some (11 * second);
  message = Message.minimum_spacing (11 * second);
}

abbrev started : ProviderState
started = record idle { last_started_at_utc = some second }

blocks : block_reason utc policy started (6 * second) ≡ some close_start
unfolding block_reason runs_on_day add_duration
blocks = refl

block_reason-not_before_example :
    (close_start.action ≡ SchedulerAction.deferred)
    × (6 * second < 11 * second)
    × (block_reason utc policy started (8 * second) ≢ none)
block_reason-not_before_example =
    block_reason-not_before utc policy started (6 * second) (11 * second) (8 * second) close_start
      blocks refl (omega arith)

is_invalid-false_iff_example : (is_invalid "p" full.state ≡ false) ↔ IsValid full.state
is_invalid-false_iff_example = is_invalid-false_iff "p" full.state refl (omega arith)

accepted : is_invalid "p" full.state ≡ false
unfolding is_invalid unsorted
accepted = refl

abbrev calls : List (Instant × Call)
calls = (30 * second, reserves) ∷ (2 * second, polls []) ∷ []

run_accepted_example : is_invalid "p" (run utc memory "r" calls (full, [])).0.state ≡ false
run_accepted_example = run_accepted utc memory "r" "p" calls full refl (omega arith) accepted

-- A policy that allows no start leaves nothing to plan.
abbrev closed : SchedulerPolicy
closed = record policy { daily_max = 0 }

abbrev fresh : Scheduler Providers
fresh = record {
  disk = ("p", unplanned utc closed (5 * second) 7) ∷ [];
  others = [];
  state = unplanned utc closed (5 * second) 7;
  policy = closed;
}

opened : (open_seeded utc memory [] closed (5 * second) 7).1 ≡ ok fresh
unfolding open_seeded reconcile new_provider get persist insert plan_full_day plan_interval
    duration_millis earliest_start total_ms
opened = refl

spacing_millis : 0 < duration_millis (10 * second)
unfolding duration_millis
spacing_millis = omega arith

loads_nothing :
    (providers : Providers) (recovered : Bool)
    → (memory.load []).1 ≡ ok (providers, recovered)
    → EntryIsValid (get "p" providers)
unfolding get
loads_nothing providers recovered h =
    let empty : [] ≡ providers = ground arith in subst (λ q. EntryIsValid (get "p" q)) empty tt

open_seeded-IsValid_example : IsValid fresh.state
open_seeded-IsValid_example =
    open_seeded-IsValid utc memory closed (5 * second) [] 7 fresh (omega arith)
      (omega arith, spacing_millis) loads_nothing opened
