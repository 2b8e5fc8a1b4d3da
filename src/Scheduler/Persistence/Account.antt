-- ===== src/Scheduler/Persistence/Account.antt =====
-- src/scheduler/persistence.rs: the part of the store that is accounted for, and its replay.
pub mod Laws
use netband.Base.{
  ℕ, max, Bool, true, false, ◌&&◌, Option, none, some, List, [], ◌∷◌, String, str_eq, ◌==◌,
}
use netband.Chrono.{Instant, Day}
use netband.Dict.{Dict, get, insert}
use netband.Model.{TriggerReason}
use netband.Scheduler.Types.{ProviderState, DeferredOpportunity}
use netband.Scheduler.Store.{Providers}

pub record Accounting : Type 0 where
  pub day : Day
  pub runs : List Instant
  pub last_start : Option Instant
  pub cooldown : Option Instant
  pub backoff : ℕ
  pub deferred : Option DeferredOpportunity

abbrev pub account : ProviderState → Accounting
account state = record {
  day = state.day_utc;
  runs = state.runs;
  last_start = state.last_started_at_utc;
  cooldown = state.cooldown_until_utc;
  backoff = state.backoff_step;
  deferred = state.deferred;
}

abbrev pub accounting : Providers → Dict Accounting
accounting [] = []
accounting ((id, state) ∷ rest) = (id, account state) ∷ accounting rest

-- The derived equality.
abbrev pub list_eq : List ℕ → List ℕ → Bool
list_eq [] [] = true
list_eq [] (y ∷ ys) = false
list_eq (x ∷ xs) [] = false
list_eq (x ∷ xs) (y ∷ ys) = x == y && list_eq xs ys

abbrev pub time_eq : Option Instant → Option Instant → Bool
time_eq none none = true
time_eq none (some t) = false
time_eq (some s) none = false
time_eq (some s) (some t) = s == t

abbrev pub name_eq : Option String → Option String → Bool
name_eq none none = true
name_eq none (some t) = false
name_eq (some s) none = false
name_eq (some s) (some t) = str_eq s t

abbrev pub reason_code : TriggerReason → ℕ
reason_code TriggerReason.scheduled = 0
reason_code TriggerReason.ping_loss = 1
reason_code TriggerReason.ping_rtt = 2
reason_code TriggerReason.manual = 3

abbrev pub deferred_eq : Option DeferredOpportunity → Option DeferredOpportunity → Bool
deferred_eq none none = true
deferred_eq none (some e) = false
deferred_eq (some d) none = false
deferred_eq (some d) (some e) =
    time_eq d.scheduled_at_utc e.scheduled_at_utc
    && reason_code d.reason == reason_code e.reason
    && name_eq d.interface e.interface
    && d.created_at_utc == e.created_at_utc
    && d.expires_at_utc == e.expires_at_utc
    && d.rate_limit_attempts == e.rate_limit_attempts

abbrev pub account_eq : Accounting → Accounting → Bool
account_eq a b =
    a.day == b.day
    && list_eq a.runs b.runs
    && time_eq a.last_start b.last_start
    && time_eq a.cooldown b.cooldown
    && a.backoff == b.backoff
    && deferred_eq a.deferred b.deferred

unfoldable pub accounting_eq : Dict Accounting → Dict Accounting → Bool
accounting_eq [] [] = true
accounting_eq [] (e ∷ es) = false
accounting_eq (d ∷ ds) [] = false
accounting_eq ((i, a) ∷ ds) ((j, b) ∷ es) = str_eq i j && account_eq a b && accounting_eq ds es

unfoldable pub replay_accounting : ProviderState → ProviderState → ProviderState
replay_accounting state recorded = record state {
  day_utc = recorded.day_utc;
  runs = recorded.runs;
  last_started_at_utc = recorded.last_started_at_utc;
  cooldown_until_utc = recorded.cooldown_until_utc;
  backoff_step = recorded.backoff_step;
  last_observed_utc = max state.last_observed_utc recorded.last_observed_utc;
  deferred = recorded.deferred;
  interface_triggers = recorded.interface_triggers;
}

abbrev pub replay_entry : Option ProviderState → ProviderState → ProviderState
replay_entry none recorded = recorded
replay_entry (some state) recorded = replay_accounting state recorded

-- The loop over the providers of the last record.
unfoldable pub replay : Providers → Providers → Providers
replay [] store = store
replay ((id, recorded) ∷ rest) store =
    replay rest (insert id (replay_entry (get id store) recorded) store)
