-- ===== src/Automation/Workprocess/Commit.antt =====
-- src/mentorapp/automation/workprocess_engine.py: `commit_run`, the one applying moment. The flush that
-- ends it is not modelled.
use cbm_mentoring_app.Base.{
  ℕ, ◌+◌, ◌*◌, String, Option, none, some, List, [], ◌∷◌, ◌++◌, string_eq, if◌then◌else◌, leb,
}
use cbm_mentoring_app.Base.Json.{Json, null}
use cbm_mentoring_app.Base.Dict.{Dict}
use cbm_mentoring_app.Base.Exec.{Result, ok, err}
use cbm_mentoring_app.Automation.Workprocess.Runs.{
  RunState, in_flight, committed, WorkprocessRun, WorkprocessRegistration, RunError,
  run_not_in_flight, run_not_completable, handler_raised,
}

pub record WorkprocessCommitPayload : Type 0 where
  pub workprocess_registration_id : ℕ
  pub workprocess_name : String
  pub workprocess_run_id : ℕ
  pub data_source_key : String
  pub selected_record_ids : List String
  pub step_answers : Dict String Json
  pub user_id : ℕ

-- The bell entry of a long run; its wording is not modelled.
pub record Notification : Type 0 where
  pub user_id : ℕ
  pub notification_type : String
  pub notification_expires_at : ℕ

-- Two minutes, and the thirty days of `NOTIFICATION_RETENTION`.
abbrev pub long_run_notification_after : ℕ
long_run_notification_after = 120_000_000

abbrev pub notification_retention : ℕ
notification_retention = 30 * 86_400_000_000

unfoldable pub payload_of :
    WorkprocessRun → WorkprocessRegistration → String → WorkprocessCommitPayload
payload_of run registration data_source_key = record {
  workprocess_registration_id = registration.workprocess_registration_id;
  workprocess_name = registration.workprocess_name;
  workprocess_run_id = run.workprocess_run_id;
  data_source_key = data_source_key;
  selected_record_ids = run.selected_record_ids;
  step_answers = run.step_answers;
  user_id = run.user_id;
}

-- What one transaction holds: the run's row, the new bell entries, and the program's own data.
pub record Session (W : Type 0) : Type 0 where
  pub run : WorkprocessRun
  pub notifications : List Notification
  pub data_written : W

-- A handler writes, and raises or not.
abbrev pub Handler : Type 0 → Type 0 → Type 0
Handler W X = WorkprocessCommitPayload → W → Result X (Unit {0}) × W

abbrev pub bell : WorkprocessRun → ℕ → List Notification → List Notification
bell run moment notifications =
    let long =
      notifications
      ++ record {
        user_id = run.user_id;
        notification_type = "workprocessCompleted";
        notification_expires_at = moment + notification_retention;
      }
        ∷ [] in
    if leb (run.created_at + long_run_notification_after) moment then long else notifications

module _ {W X : Type 0} where
  -- Without a handler nothing is written.
  abbrev pub apply : Option (Handler W X) → Handler W X
  apply none payload w = (ok tt, w)
  apply (some handler) payload w = handler payload w

  abbrev pub finish :
      Session W
      → WorkprocessCommitPayload
      → ℕ
      → Result X (Unit {0}) × W
      → Result (RunError X) WorkprocessCommitPayload × Session W
  finish s payload moment (err x, w) = (err (handler_raised x), record s { data_written = w })
  finish s payload moment (ok _, w) = (
    ok payload,
    record {
      run = record s.run {
        run_state = committed;
        completed_at = some moment;
        modified_by = s.run.user_id;
      };
      notifications = bell s.run moment s.notifications;
      data_written = w;
    },
  )

  abbrev pub applying :
      Session W
      → WorkprocessRegistration
      → String
      → (String → Option (Handler W X))
      → ℕ
      → Result (RunError X) WorkprocessCommitPayload × Session W
  applying s registration data_source_key handler_for moment =
      let payload = payload_of s.run registration data_source_key in
      finish s payload moment
        (apply (handler_for registration.workprocess_name) payload s.data_written)

  abbrev pub when_finished :
      Json
      → Result (RunError X) WorkprocessCommitPayload × Session W
      → Session W
      → Result (RunError X) WorkprocessCommitPayload × Session W
  when_finished null rest s = rest
  when_finished place rest s = (err (run_not_completable place), s)

  abbrev pub when_in_flight :
      RunState
      → Result (RunError X) WorkprocessCommitPayload × Session W
      → Session W
      → Result (RunError X) WorkprocessCommitPayload × Session W
  when_in_flight in_flight rest s = rest
  when_in_flight ended rest s = (err (run_not_in_flight ended), s)

  unfoldable pub commit_run :
      Session W
      → WorkprocessRegistration
      → String
      → (String → Option (Handler W X))
      → ℕ
      → Result (RunError X) WorkprocessCommitPayload × Session W
  commit_run s registration data_source_key handler_for moment =
      when_in_flight s.run.run_state
        (when_finished s.run.current_step_key
          (applying s registration data_source_key handler_for moment) s)
        s
