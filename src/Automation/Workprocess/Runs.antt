-- ===== src/Automation/Workprocess/Runs.antt =====
-- src/mentorapp/automation/workprocess_engine.py: the run verbs. A run is the storage row's fields
-- that the engine uses; moments are microseconds, and the flush that ends a verb is not modelled.
use cbm_mentoring_app.Base.{
  ℕ, String, Bool, false, Option, none, some, is_some, List, [], ◌==◌, string_eq, if◌then◌else◌,
}
use cbm_mentoring_app.Base.Json.{Json, Members, null, text, member_of}
use cbm_mentoring_app.Base.Dict
use cbm_mentoring_app.Base.Dict.{Dict}
use cbm_mentoring_app.Base.Exec.{Result, ok, err}
use cbm_mentoring_app.Automation.Workprocess.Graph.{declared_steps}

pub data RunState : Type 0 where
  in_flight : RunState
  committed : RunState
  discarded : RunState

pub record WorkprocessRegistration : Type 0 where
  pub workprocess_registration_id : ℕ
  pub workprocess_name : String
  pub step_graph : Members

pub record WorkprocessRun : Type 0 where
  pub workprocess_run_id : ℕ
  pub workprocess_registration_id : ℕ
  pub data_source_id : ℕ
  pub user_id : ℕ
  pub selected_record_ids : List String
  pub current_step_key : Json
  pub step_answers : Dict String Json
  pub run_state : RunState
  pub completed_at : Option ℕ
  pub created_at : ℕ
  pub modified_by : ℕ

-- The run errors; `not_iterable` is the `TypeError` of a `steps` that is no list, and
-- `handler_raised` what a commit handler raises.
pub data RunError (X : Type 0) : Type 0 where
  run_not_in_flight : RunState → RunError X
  not_current_step : String → Json → RunError X
  unknown_branch : String → RunError X
  run_not_completable : Json → RunError X
  not_iterable : RunError X
  handler_raised : X → RunError X

-- `launch_run`; the row's own id and the clock's reading come with the insert.
unfoldable pub launch_run : ℕ → ℕ → WorkprocessRegistration → ℕ → List String → ℕ → WorkprocessRun
launch_run run_id now registration data_source_id selected_record_ids user_id = record {
  workprocess_run_id = run_id;
  workprocess_registration_id = registration.workprocess_registration_id;
  data_source_id = data_source_id;
  user_id = user_id;
  selected_record_ids = selected_record_ids;
  current_step_key = member_of registration.step_graph "startStepKey";
  step_answers = [];
  run_state = in_flight;
  completed_at = none;
  created_at = now;
  modified_by = user_id;
}

-- `step_key == run.current_step_key`
abbrev pub is_step : String → Json → Bool
is_step step_key (text s) = step_key == s
is_step step_key _ = false

-- `successors.get(step_key)`
abbrev pub default_of : Option Json → Json
default_of none = null
default_of (some next) = next

-- The answer joins the pending ones, and the walk goes on to the successor.
abbrev pub advance : WorkprocessRun → String → Json → Json → WorkprocessRun
advance run step_key answer successor = record run {
  step_answers = Dict.put run.step_answers step_key answer;
  current_step_key = successor;
  modified_by = run.user_id;
}

module _ {X : Type 0} where
  -- `_require_in_flight` before the rest of a verb
  abbrev pub in_flight_then :
      RunState → Result (RunError X) WorkprocessRun → Result (RunError X) WorkprocessRun
  in_flight_then in_flight rest = rest
  in_flight_then committed rest = err (run_not_in_flight committed)
  in_flight_then discarded rest = err (run_not_in_flight discarded)

  abbrev branch :
      WorkprocessRun
      → Dict String Json
      → String
      → Json
      → Option String
      → Result (RunError X) WorkprocessRun
  branch run successors step_key answer none =
      ok (advance run step_key answer (default_of (Dict.get successors step_key)))
  branch run successors step_key answer (some next) =
      if is_some (Dict.get successors next)
      then ok (advance run step_key answer (text next))
      else err (unknown_branch next)

  abbrev walk :
      Option (Dict String Json)
      → WorkprocessRun
      → String
      → Json
      → Option String
      → Result (RunError X) WorkprocessRun
  walk none run step_key answer next_step_key = err not_iterable
  walk (some successors) run step_key answer next_step_key =
      branch run successors step_key answer next_step_key

  -- The run after the answer, or the error that leaves it as it is.
  unfoldable pub answer_step :
      WorkprocessRun
      → WorkprocessRegistration
      → String
      → Json
      → Option String
      → Result (RunError X) WorkprocessRun
  answer_step run registration step_key answer next_step_key = in_flight_then run.run_state (
      if is_step step_key run.current_step_key
      then walk (declared_steps registration.step_graph) run step_key answer next_step_key
      else err (not_current_step step_key run.current_step_key))

  unfoldable pub cancel_run : WorkprocessRun → ℕ → Result (RunError X) WorkprocessRun
  cancel_run run now = in_flight_then run.run_state (
      ok (record run { run_state = discarded; completed_at = some now; modified_by = run.user_id }))
