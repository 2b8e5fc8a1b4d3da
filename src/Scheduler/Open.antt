-- ===== src/Scheduler/Open.antt =====
-- src/scheduler.rs: `reconcile` and `open_seeded`, which bring a loaded store up to date with the
-- clock and the policy. The seed and the path are arguments.
pub mod Laws
use netband.Base.{
  ℕ, max, Bool, true, false, not, ◌&&◌, ◌||◌, Option, none, some, List, [], String, ltb, leb, ◌==◌,
  if◌then◌else◌, retain,
}
use netband.Chrono.{Chrono, Instant}
use netband.Dict.{get}
use netband.Scheduler.Types.{ProviderState, SchedulerPolicy}
use netband.Scheduler.Time.{duration_millis}
use netband.Scheduler.Plan.{plan_full_day}
use netband.Scheduler.Store.{Storage, Scheduler, Providers, Result, ok, err, persist, store}
use netband.Scheduler.Clock.{reconcile_day, replan_remaining}

-- A provider that the store does not have yet, before its slots are planned.
abbrev pub unplanned : Chrono → SchedulerPolicy → Instant → ℕ → ProviderState
unplanned c policy now seed = record {
  day_utc = c.date_naive now;
  slots = [];
  runs = [];
  last_started_at_utc = none;
  cooldown_until_utc = none;
  backoff_step = 0;
  deferred = none;
  interface_triggers = [];
  policy_daily_max = policy.daily_max;
  policy_min_spacing_ms = duration_millis policy.min_spacing;
  policy_slot_jitter_pct = policy.slot_jitter_pct;
  rng_state = max seed 1;
  last_observed_utc = now;
}

unfoldable pub new_provider : Chrono → SchedulerPolicy → Instant → ℕ → ProviderState
new_provider c policy now seed =
    let fresh = unplanned c policy now seed in
    let planned = plan_full_day c fresh policy now in
    record fresh { slots = planned.0; rng_state = planned.1 }

abbrev pub policy_changed : SchedulerPolicy → ProviderState → Bool
policy_changed policy state =
    not (state.policy_daily_max == policy.daily_max)
    || not (state.policy_min_spacing_ms == duration_millis policy.min_spacing)
    || not (state.policy_slot_jitter_pct == policy.slot_jitter_pct)

abbrev pub adopt : SchedulerPolicy → ProviderState → ProviderState
adopt policy state = record state {
  policy_daily_max = policy.daily_max;
  policy_min_spacing_ms = duration_millis policy.min_spacing;
  policy_slot_jitter_pct = policy.slot_jitter_pct;
}

unfoldable pub adopt_policy : Chrono → SchedulerPolicy → Instant → ProviderState → ProviderState
adopt_policy c policy now state =
    let adopted = adopt policy state in
    let emptied : ProviderState = record adopted {
      slots = [];
      interface_triggers = [];
      deferred = none;
    } in
    if policy_changed policy state
    then if policy.daily_max == 0 then emptied else replan_remaining c policy adopted now
    else state

-- `reconcile` on a provider that the store has.
unfoldable pub reconcile_known : Chrono → SchedulerPolicy → Instant → ProviderState → ProviderState
unfolding adopt_policy
reconcile_known c policy now state =
    let adopted = adopt_policy c policy now (reconcile_day c policy state now) in
    record adopted {
      slots = retain (λ slot. ltb now slot) adopted.slots;
      last_observed_utc =
          if leb adopted.last_observed_utc now then now else adopted.last_observed_utc;
    }

module _ {D : Type 0} (c : Chrono) (w : Storage D) where
  -- The new state, and whether it is to be written.
  unfoldable pub reconcile :
      SchedulerPolicy → Instant → ℕ → Option ProviderState → ProviderState × Bool
  unfolding new_provider reconcile_known
  reconcile policy now seed none = (new_provider c policy now seed, true)
  reconcile policy now seed (some before) =
      let after = reconcile_known c policy now before in (after, w.changed before after)

  settle : Bool → Scheduler D → Scheduler D × Result (Unit {0})
  settle true s = persist w s
  settle false s = (s, ok tt)

  finish_open : Scheduler D × Result (Unit {0}) → D × Result (Scheduler D)
  finish_open (s, ok _) = (s.disk, ok s)
  finish_open (s, err e) = (s.disk, err e)

  open_loaded : D → SchedulerPolicy → Instant → ℕ → Providers → Bool → D × Result (Scheduler D)
  unfolding settle finish_open
  open_loaded d policy now seed providers recovered =
      let reconciled = reconcile policy now seed (get policy.provider_id providers) in
      let state = if recovered then replan_remaining c policy reconciled.0 now else reconciled.0 in
      let s : Scheduler D = record {
        disk = d;
        others = providers;
        state = state;
        policy = policy;
      } in
      finish_open (settle (reconciled.1 || recovered || w.needs_snapshot d (store s)) s)

  from_load :
      SchedulerPolicy → Instant → ℕ → D × Result (Providers × Bool) → D × Result (Scheduler D)
  unfolding open_loaded
  from_load policy now seed (d, err e) = (d, err e)
  from_load policy now seed (d, ok (providers, recovered)) =
      open_loaded d policy now seed providers recovered

  -- The files afterwards, with the scheduler or an error.
  unfoldable pub open_seeded : D → SchedulerPolicy → Instant → ℕ → D × Result (Scheduler D)
  unfolding from_load
  open_seeded d policy now seed = from_load policy now seed (w.load d)
