-- ===== src/Examples/Journals.antt =====
-- A journal that is a list, and one session with a child run.
use netband.Base.{some, ◌≡◌, refl, none, List, [], ◌∷◌, ◌++◌}
use netband.Model.{EventKind, Outcome}
use netband.Journal.{
  OutputCoordinator, OutputEvent, RunKind, Failure, Process, new_output, default_context,
  new_coordinator, publish_batch, number,
}
use netband.Journal.Numbers.{Published, publish_batch-Published}
use netband.Journal.Close.{finish_session}
use netband.Journal.Ending.{Closes, finish_session-Closes}
use netband.Journal.Tree.{Rooted}
use netband.Journal.Calls.{CoordinatorCall, apply_all, new_coordinator-Rooted}

abbrev append_list : List OutputEvent → List OutputEvent → List OutputEvent × Failure
append_list journal batch = (journal ++ batch, none)

abbrev here : Process
here = record { utc_now = 5; now = 7; millis = λ n. n; process_id = 42; version = "1.0" }

abbrev one_session : List CoordinatorCall
one_session =
    CoordinatorCall.session here "s" "monitor"
    ∷ CoordinatorCall.start here "c" "s" RunKind.bandwidth default_context
    ∷ CoordinatorCall.finish here "c" Outcome.success none
    ∷ []

new_coordinator-Rooted_example :
    Rooted (apply_all append_list one_session (new_coordinator append_list [])).runs
new_coordinator-Rooted_example = new_coordinator-Rooted append_list [] one_session

abbrev two_events : List OutputEvent
two_events =
    new_output "s" EventKind.scheduler Outcome.scheduled 5
    ∷ new_output "s" EventKind.bandwidth Outcome.success 6
    ∷ []

published : (publish_batch append_list two_events (new_coordinator append_list [])).1 ≡ none
unfolding publish_batch number
published = refl

publish_batch-Published_example :
    Published append_list two_events
      (new_coordinator append_list [])
      (publish_batch append_list two_events (new_coordinator append_list [])).0
publish_batch-Published_example =
    publish_batch-Published append_list two_events (new_coordinator append_list []) published

abbrev active : OutputCoordinator (List OutputEvent)
active = apply_all append_list one_session (new_coordinator append_list [])

finish_session-Closes_example :
    (r : OutputCoordinator (List OutputEvent) × Failure) × (finish_session append_list
        (λ id. here)
        "s"
        Outcome.error
        (some "lost")
        active
      ≡ some r)
    × Closes append_list "s" r
finish_session-Closes_example =
    finish_session-Closes append_list (λ id. here) "s" Outcome.error (some "lost") active
