-- ===== src/Automation/Worker/Examples.antt =====
-- src/mentorapp/automation/worker.py: one due job, one that a crashed worker left, one for later.
use cbm_mentoring_app.Base.{ℕ, ◌+◌, String, ◌≡◌, refl, false, Option, none, some, [], ◌∷◌, nat_eq}
use cbm_mentoring_app.Base.Dict
use cbm_mentoring_app.Base.Dict.{IsDict}
use cbm_mentoring_app.Automation.Worker.{
  JobStatus, pending, processing, BackgroundJob, Handled, fails, Queue, run_worker_pass,
}
use cbm_mentoring_app.Automation.Worker.Drains.{due_in, pass_drains}

abbrev job : ℕ → JobStatus → ℕ → Option ℕ → BackgroundJob
job id status run_after locked_until = record {
  job_id = id;
  job_type = "gridExport";
  job_status = status;
  run_after = run_after;
  locked_until = locked_until;
  attempt_count = 0;
  created_by = some 7;
  artifact_url = none;
  job_expires_at = none;
  is_deleted = false;
}

abbrev queue : Queue
queue = record {
  jobs =
      (1, job 1 pending 50 none)
      ∷ (2, job 2 processing 10 (some 90))
      ∷ (3, job 3 pending 500 none)
      ∷ [];
  bells = [];
  feed = [];
}

abbrev handlers : String → Option (BackgroundJob → Handled)
handlers job_type = some (λ job. fails)

queue-IsDict : IsDict queue.jobs
unfolding Dict.get nat_eq
queue-IsDict = (refl, (refl, (refl, tt)))

pass_drains_example :
    (q' : Queue) × (run_worker_pass handlers 300 5 100 (due_in 100 queue.jobs + 1) queue 0
      ≡ some (due_in 100 queue.jobs, q'))
    × (due_in 100 q'.jobs ≡ 0)
pass_drains_example = pass_drains handlers 300 5 100 queue queue-IsDict
