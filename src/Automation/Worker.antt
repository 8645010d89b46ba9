-- ===== src/Automation/Worker.antt =====
-- src/mentorapp/automation/worker.py: the job queue, over the table as a dict by job id. One pass
-- reads one moment, and what a handler writes elsewhere is outside the queue.
pub mod Drains
mod Examples
use cbm_mentoring_app.Base.{
  ℕ, zero, suc, ◌+◌, ◌-◌, ◌*◌, ◌^◌, min, max, String, ◌≡◌, Bool, true, false, ◌&&◌, ◌||◌, not,
  Option, none, some, is_some, List, [], ◌∷◌, ◌++◌, ◌==◌, nat_eq, if◌then◌else◌, ltb, leb, any,
}
use cbm_mentoring_app.Base.Dict
use cbm_mentoring_app.Base.Dict.{Dict}

pub data JobStatus : Type 0 where
  pending : JobStatus
  processing : JobStatus
  completed : JobStatus
  needs_attention : JobStatus

pub record BackgroundJob : Type 0 where
  pub job_id : ℕ
  pub job_type : String
  pub job_status : JobStatus
  pub run_after : ℕ
  pub locked_until : Option ℕ
  pub attempt_count : ℕ
  pub created_by : Option ℕ
  pub artifact_url : Option String
  pub job_expires_at : Option ℕ
  pub is_deleted : Bool

pub record JobOutcome : Type 0 where
  pub artifact_url : Option String
  pub artifact_retention : Option ℕ

-- What a handler does with a job: an outcome or none, `PermanentJobError`, another exception.
pub data Handled : Type 0 where
  finished : Option JobOutcome → Handled
  fails_for_good : Handled
  fails : Handled

-- One second, thirty of them, and an hour, in microseconds.
abbrev pub backoff_base : ℕ
backoff_base = 30_000_000

abbrev pub backoff_cap : ℕ
backoff_cap = 3_600_000_000

-- The subtraction stops at zero, as `max(..., 0)` makes it.
unfoldable pub retry_backoff : ℕ → ℕ
retry_backoff attempt_count = min (backoff_base * 2 ^ min (attempt_count - 1) 20) backoff_cap

-- The bell entry; its wording is not modelled.
pub record Bell : Type 0 where
  pub user_id : ℕ
  pub is_failure : Bool
  pub job_id : ℕ
  pub notification_expires_at : ℕ

pub record Queue : Type 0 where
  pub jobs : Dict ℕ BackgroundJob
  pub bells : List Bell
  pub feed : List ℕ

abbrev pub notification_retention : ℕ
notification_retention = 30 * 86_400_000_000

abbrev pub lease_over : Option ℕ → ℕ → Bool
lease_over none now = false
lease_over (some t) now = ltb t now

abbrev pub status_due : JobStatus → BackgroundJob → ℕ → Bool
status_due pending job now = leb job.run_after now
status_due processing job now = lease_over job.locked_until now
status_due _ job now = false

-- The claim query's condition.
unfoldable pub is_due : ℕ → BackgroundJob → Bool
is_due now job = not job.is_deleted && status_due job.job_status job now

-- `ORDER BY run_after, job_id`
unfoldable pub comes_first : BackgroundJob → BackgroundJob → Bool
comes_first a b = ltb a.run_after b.run_after || a.run_after == b.run_after && leb a.job_id b.job_id

abbrev pub earlier : ℕ × BackgroundJob → Option (ℕ × BackgroundJob) → ℕ × BackgroundJob
earlier entry none = entry
earlier (k, a) (some (j, b)) = if comes_first a b then (k, a) else (j, b)

-- The query's first row.
unfoldable pub first_due : ℕ → Dict ℕ BackgroundJob → Option (ℕ × BackgroundJob)
first_due now [] = none
first_due now ((k, job) ∷ jobs) =
    let rest = first_due now jobs in
    let here = some (earlier (k, job) rest) in if is_due now job then here else rest

-- `_notify_terminal`
abbrev pub notify_terminal : BackgroundJob → Bool → ℕ → List Bell → List Bell
notify_terminal job is_failure now bells = elim job.created_by [
  | none ↦ bells
  | some user ↦
      let rung = any (λ b. b.job_id == job.job_id && b.user_id == user) bells in
      let added =
        bells
        ++ record {
          user_id = user;
          is_failure = is_failure;
          job_id = job.job_id;
          notification_expires_at = now + notification_retention;
        }
          ∷ [] in
      if rung then bells else added
]

abbrev pub stamped : BackgroundJob → Option JobOutcome → ℕ → BackgroundJob
stamped job none now = job
stamped job (some outcome) now = elim outcome.artifact_url [
  | none ↦ job
  | some url ↦ record job {
    artifact_url = some url;
    job_expires_at = elim outcome.artifact_retention [
      | none ↦ job.job_expires_at
      | some retention ↦ some (now + retention)
    ];
  }
]

unfoldable pub completed_job : BackgroundJob → Option JobOutcome → ℕ → BackgroundJob
completed_job job outcome now =
    stamped (record job { job_status = completed; locked_until = none }) outcome now

unfoldable pub complete_job : Queue → ℕ → BackgroundJob → Option JobOutcome → ℕ → Queue
complete_job q key job outcome now = record {
  jobs = Dict.put q.jobs key (completed_job job outcome now);
  bells = notify_terminal job false now q.bells;
  feed = q.feed ++ job.job_id ∷ [];
}

abbrev pub is_parked : BackgroundJob → Bool → ℕ → Bool
is_parked job permanent max_attempts = permanent || leb max_attempts (job.attempt_count + 1)

unfoldable pub failed_job : BackgroundJob → Bool → ℕ → ℕ → BackgroundJob
failed_job job permanent max_attempts now =
    let tried = record job { attempt_count = job.attempt_count + 1; locked_until = none } in
    if is_parked job permanent max_attempts
    then record tried { job_status = needs_attention }
    else record tried {
      job_status = pending;
      run_after = now + retry_backoff (job.attempt_count + 1);
    }

unfoldable pub fail_job : Queue → ℕ → BackgroundJob → Bool → ℕ → ℕ → Queue
fail_job q key job permanent max_attempts now =
    let parked = is_parked job permanent max_attempts in
    let rung = notify_terminal job true now q.bells in
    record {
      jobs = Dict.put q.jobs key (failed_job job permanent max_attempts now);
      bells = if parked then rung else q.bells;
      feed = if parked then q.feed ++ job.job_id ∷ [] else q.feed;
    }

-- The claim's update: the job is processing under its lease.
abbrev pub claimed : ℕ → ℕ → BackgroundJob → BackgroundJob
claimed lease now job = record job { job_status = processing; locked_until = some (now + lease) }

abbrev pub settle : ℕ → ℕ → Queue → ℕ → BackgroundJob → Handled → Queue
settle max_attempts now q key job (finished outcome) = complete_job q key job outcome now
settle max_attempts now q key job fails_for_good = fail_job q key job true max_attempts now
settle max_attempts now q key job fails = fail_job q key job false max_attempts now

-- A job type without a handler parks at once.
abbrev pub handled : Option (BackgroundJob → Handled) → BackgroundJob → Handled
handled none job = fails_for_good
handled (some handler) job = handler job

module _ (handlers : String → Option (BackgroundJob → Handled)) (lease max_attempts now : ℕ) where
  -- `None` is a queue where nothing is due.
  unfoldable pub process_next_job : Queue → Option Queue
  process_next_job q = elim (first_due now q.jobs) [
    | none ↦ none
    | some (key, job) ↦
        let job' = claimed lease now job in
        let q' = record q { jobs = Dict.put q.jobs key job' } in
        some (settle max_attempts now q' key job' (handled (handlers job.job_type) job'))
  ]

  -- The loop, counting; `none` is the end of the fuel.
  unfoldable pub run_worker_pass : ℕ → Queue → ℕ → Option (ℕ × Queue)
  run_worker_pass zero q processed = none
  run_worker_pass (suc fuel) q processed = elim (process_next_job q) [
    | none ↦ some (processed, q)
    | some q' ↦ run_worker_pass fuel q' (processed + 1)
  ]
