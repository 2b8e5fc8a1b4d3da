-- ===== src/Examples/Monitors.antt =====
-- Two interfaces that take turns.
use netband.Base.{
  ◌+◌, ◌≤◌, refl, Bool, true, none, some, List, [], ◌∷◌, String, str_eq, if◌then◌else◌,
}
use netband.Model.{TriggerReason}
use netband.Scheduler.Types.{BandwidthOpportunity}
use netband.Interfaces.{new_selector, attempts}
use netband.Interfaces.Balance.{turns, turns_balanced}
use netband.Monitor.{
  InterfaceRuntime, Surroundings, new_runtime, select_bandwidth_interface, eligible_names,
}
use netband.Monitor.Selection.{Ends, select_bandwidth_interface-Ends}

abbrev names : List String
names = "eth0" ∷ "wlan0" ∷ []

turns_balanced_example :
    attempts (turns 3 (new_selector names)) "eth0"
    ≤ attempts (turns 3 (new_selector names)) "wlan0" + 1
turns_balanced_example = turns_balanced 3 names "eth0" "wlan0" refl refl

-- The first does not resolve.
abbrev unplugged : Surroundings
unplugged = record {
  tested_at = λ name. 0;
  failed_at = λ name. 1;
  utc_now = λ name. 2;
  resolve = λ name. if str_eq name "eth0" then some "no such interface" else none;
}

abbrev runtimes : List (InterfaceRuntime Bool)
runtimes = new_runtime "eth0" true ∷ new_runtime "wlan0" true ∷ []

abbrev any_interface : BandwidthOpportunity
any_interface = record {
  reason = TriggerReason.scheduled;
  scheduled_at_utc = none;
  requested_at_utc = 0;
  interface = none;
}

select_bandwidth_interface-Ends_example :
    Ends unplugged
      (new_selector names)
      (eligible_names "r" unplugged runtimes)
      (select_bandwidth_interface "r" unplugged any_interface runtimes (new_selector names) 0)
select_bandwidth_interface-Ends_example =
    select_bandwidth_interface-Ends "r" unplugged any_interface runtimes (new_selector names) 0 refl
