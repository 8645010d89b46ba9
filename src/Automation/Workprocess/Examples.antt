-- ===== src/Automation/Workprocess/Examples.antt =====
-- src/mentorapp/automation/workprocess_engine.py: choose a mentor, then confirm.
use cbm_mentoring_app.Base.{ℕ, ◌+◌, String, ◌≡◌, refl, Option, none, some, List, [], ◌∷◌, string_eq}
use cbm_mentoring_app.Base.Json.{
  Json, Members, null, text, array, object, item, no_items, member, no_members,
}
use cbm_mentoring_app.Base.Exec.{ok}
use cbm_mentoring_app.Base.Sorting.{sorted_names}
use cbm_mentoring_app.Automation.Workprocess.Graph.{
  step_graph_problems, graph_problems, keys_of, key_problems, duplicates, is_known, is_dangling,
  successor_problems, is_terminal,
}
use cbm_mentoring_app.Automation.Workprocess.Runs.{
  discarded, WorkprocessRegistration, WorkprocessRun, RunState, in_flight, launch_run, cancel_run,
}
use cbm_mentoring_app.Automation.Workprocess.Commit.{commit_run, Session, Handler}
use cbm_mentoring_app.Automation.Workprocess.Paths.{after_answers, CanFinish, never_stuck}
use cbm_mentoring_app.Automation.Workprocess.Commits.{
  Verb, answers, cancels, commits, verb, verbs, AllRefused, IsAllOrNothing,
  commit_run-IsAllOrNothing, ended_for_good,
}

abbrev step : String → Json → Json
step key next = object (member "stepKey" (text key) (member "nextStepKey" next no_members))

abbrev graph : Members
graph = member "startStepKey" (text "chooseMentor") (
    member "steps"
      (array (item (step "chooseMentor" (text "confirm")) (item (step "confirm" null) no_items)))
      no_members)

accepted_graph : step_graph_problems (object graph) ≡ some []
unfolding step_graph_problems graph_problems keys_of key_problems duplicates sorted_names is_known
    is_dangling successor_problems is_terminal string_eq
accepted_graph = refl

abbrev assign : WorkprocessRegistration
assign = record {
  workprocess_registration_id = 1;
  workprocess_name = "assignMentor";
  step_graph = graph;
}

abbrev given_answers : List (String × Json × Option String)
given_answers = ("chooseMentor", text "m-1", some "chooseMentor") ∷ ("confirm", null, none) ∷ []

never_stuck_example :
    let run =
      after_answers String assign (launch_run 5 100 assign 2 ("r-1" ∷ []) 7) given_answers in
    (run.run_state ≡ in_flight) × CanFinish String assign run
never_stuck_example = never_stuck String 5 100 assign 2 ("r-1" ∷ []) 7 given_answers accepted_graph

abbrev finished : RunState → WorkprocessRun
finished state = record {
  workprocess_run_id = 5;
  workprocess_registration_id = 1;
  data_source_id = 2;
  user_id = 7;
  selected_record_ids = "r-1" ∷ [];
  current_step_key = null;
  step_answers = ("confirm", null) ∷ [];
  run_state = state;
  completed_at = none;
  created_at = 100;
  modified_by = 7;
}

abbrev session : RunState → Session ℕ
session state = record { run = finished state; notifications = []; data_written = 0 }

abbrev handlers : String → Option (Handler ℕ String)
handlers name = some (λ payload written. (ok tt, written + payload.user_id))

commit_run-IsAllOrNothing_example :
    let (result, s') = commit_run (session in_flight) assign "mentees" handlers 200_000_000 in
    IsAllOrNothing ℕ String
      (session in_flight)
      assign
      "mentees"
      (handlers "assignMentor")
      200_000_000
      result
      s'
commit_run-IsAllOrNothing_example =
    commit_run-IsAllOrNothing ℕ String (session in_flight) assign "mentees" handlers 200_000_000

abbrev cancel_then : List (Verb ℕ String)
cancel_then = answers assign "confirm" null none ∷ commits assign "mentees" handlers 9 ∷ []

cancelled : (verb {X = String} (cancels 8) (session in_flight)).0 ≡ none
unfolding cancel_run
cancelled = refl

ended_for_good_example :
    let s' = (verb {X = String} (cancels 8) (session in_flight)).1 in
    (s'.run.run_state ≡ discarded)
    × (s'.run.completed_at ≡ some 8)
    × AllRefused discarded cancel_then s'
    × (verbs cancel_then s' ≡ s')
ended_for_good_example =
    ended_for_good (cancels 8) (session in_flight) discarded 8 cancel_then (refl, refl) cancelled
