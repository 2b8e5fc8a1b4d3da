-- ===== src/Examples/Fixtures.antt =====
-- The inputs that the examples share. Times are nanoseconds of `utc`, a second is 10^9 of them.
use netband.Base.{ℕ, ◌*◌, true, false, none, some, [], ◌∷◌}
use netband.Model.{ProviderKind, TriggerReason}
use netband.Scheduler.Types.{ProviderState, SchedulerPolicy, BandwidthOpportunity, Reservation}
use netband.Scheduler.Store.{Storage, Scheduler, Providers, ok}

-- Files that hold the last store that was written.
abbrev pub memory : Storage Providers
memory = record {
  load = λ d. (d, ok (d, false));
  needs_snapshot = λ d s. false;
  write = λ d s. (s, ok tt);
  changed = λ a b. true;
}

abbrev pub second : ℕ
second = 1_000_000_000

-- Twice a day at most, ten seconds apart.
abbrev pub policy : SchedulerPolicy
policy = record {
  provider_id = "p";
  provider_kind = ProviderKind.mlab;
  force_limits = false;
  daily_max = 2;
  min_spacing = 10 * second;
  slot_jitter_pct = 0;
  pending_ttl = 60 * second;
  cooldown_initial = 20 * second;
  cooldown_max = 80 * second;
}

abbrev pub idle : ProviderState
idle = record {
  day_utc = 0;
  slots = [];
  runs = [];
  last_started_at_utc = none;
  cooldown_until_utc = none;
  backoff_step = 0;
  deferred = none;
  interface_triggers = [];
  policy_daily_max = 2;
  policy_min_spacing_ms = 10_000;
  policy_slot_jitter_pct = 0;
  rng_state = 7;
  last_observed_utc = 0;
}

abbrev pub scheduler : ProviderState → Scheduler Providers
scheduler state = record { disk = []; others = []; state = state; policy = policy }

-- A slot at the fifth second.
abbrev pub due : Scheduler Providers
due = scheduler (record idle { slots = 5 * second ∷ [] })

abbrev pub scheduled_offer : BandwidthOpportunity
scheduled_offer = record {
  reason = TriggerReason.scheduled;
  scheduled_at_utc = some (5 * second);
  requested_at_utc = 6 * second;
  interface = none;
}

-- A clock that was last seen at the thirtieth second.
abbrev pub late : Scheduler Providers
late = scheduler (record idle { last_observed_utc = 30 * second })

-- The day's two starts are used up.
abbrev pub full : Scheduler Providers
full =
    scheduler
      (record idle { runs = second ∷ 20 * second ∷ []; last_started_at_utc = some (20 * second) })

abbrev pub first_start : Reservation
first_start = record { accounting_date = 0; daily_bandwidth_starts = 1 }
