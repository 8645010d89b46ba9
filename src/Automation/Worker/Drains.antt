-- ===== src/Automation/Worker/Drains.antt =====
-- src/mentorapp/automation/worker.py: a worker pass ends, and takes every due job once.
use cbm_mentoring_app.Base.{
  ℕ, zero, suc, ◌+◌, ◌-◌, ◌^◌, ◌<◌, min, String, ◌≡◌, ◌∙◌, sym, ap, refl, Bool, true, false, Option,
  none, some, [], ◌∷◌, ==-self, nat_eq, if◌then◌else◌, arith, count_of, Option-cases, inl, inr, ◌⊎◌,
  subst,
}
use cbm_mentoring_app.Base.Dict
use cbm_mentoring_app.Base.Dict.{Dict, IsDict}
use cbm_mentoring_app.Automation.Worker.{
  BackgroundJob, JobOutcome, Handled, finished, fails_for_good, fails, Queue, retry_backoff, is_due,
  first_due, completed_job, failed_job, complete_job, fail_job, claimed, settle, handled,
  process_next_job, run_worker_pass,
}

power_positive : (k : ℕ) → 0 < 2 ^ k
power_positive zero = omega arith
power_positive (suc k) = omega (arith, power_positive k)

retry_backoff_positive : (n : ℕ) → 0 < retry_backoff n
unfolding retry_backoff
retry_backoff_positive n = omega (arith, power_positive (min (n - 1) 20))

-- The due jobs of a table.
abbrev pub due_in : ℕ → Dict ℕ BackgroundJob → ℕ
due_in now = count_of (λ (_, job). is_due now job)

count_put :
    (p : BackgroundJob → Bool) (d : Dict ℕ BackgroundJob) (k : ℕ) (old new : BackgroundJob)
    → Dict.get d k ≡ some old
    → count_of (λ (_, job). p job) (Dict.put d k new) + (if p old then 1 else 0)
      ≡ count_of (λ (_, job). p job) d + (if p new then 1 else 0)
unfolding Dict.get Dict.put
count_put p [] k old new h = ground (arith, h)
count_put p ((j, job) ∷ d) k old new h = ground (arith, h, count_put p d k old new)

put-IsDict :
    (d : Dict ℕ BackgroundJob) (k : ℕ) (v : BackgroundJob) → IsDict d → IsDict (Dict.put d k v)
unfolding Dict.put Dict.get
put-IsDict [] k v h = (refl, tt)
put-IsDict ((j, job) ∷ d) k v h = ground (arith, h, put-IsDict d k v, Dict.get-put d k j v)

first_due_found :
    (now : ℕ) (d : Dict ℕ BackgroundJob) (k : ℕ) (job : BackgroundJob)
    → IsDict d
    → first_due now d ≡ some (k, job)
    → (Dict.get d k ≡ some job) × (is_due now job ≡ true)
unfolding first_due Dict.get
first_due_found now [] k job h q = ground (arith, q)
first_due_found now ((j, x) ∷ d) k job h q = elim (Option-cases (first_due now d)) [
  | inl p ↦ ground (arith, q, p, ==-self j)
  | inr ((i, y), p) ↦
      let there = first_due_found now d i y h.1 p in ground (arith, h, q, p, there, ==-self j)
]

first_due-none : (now : ℕ) (d : Dict ℕ BackgroundJob) → first_due now d ≡ none → due_in now d ≡ 0
unfolding first_due
first_due-none now [] q = refl
first_due-none now ((j, x) ∷ d) q = ground (arith, q, first_due-none now d)

completed_rests :
    (now : ℕ) (job : BackgroundJob) (outcome : Option JobOutcome)
    → is_due now (completed_job job outcome now) ≡ false
unfolding is_due completed_job
completed_rests now job outcome = ground arith

failed_rests :
    (now max_attempts : ℕ) (job : BackgroundJob) (permanent : Bool)
    → is_due now (failed_job job permanent max_attempts now) ≡ false
unfolding is_due failed_job
failed_rests now max_attempts job permanent =
    ground (arith, retry_backoff_positive (job.attempt_count + 1))

-- A processed job is written at its key, and is not due.
settle_lem :
    (max_attempts now : ℕ) (q : Queue) (key : ℕ) (job : BackgroundJob) (result : Handled)
    → (job' : BackgroundJob) × ((settle max_attempts now q key job result).jobs
        ≡ Dict.put q.jobs key job')
      × (is_due now job' ≡ false)
unfolding complete_job fail_job
settle_lem max_attempts now q key job (finished outcome) =
    (completed_job job outcome now, refl, completed_rests now job outcome)
settle_lem max_attempts now q key job fails_for_good =
    (failed_job job true max_attempts now, refl, failed_rests now max_attempts job true)
settle_lem max_attempts now q key job fails =
    (failed_job job false max_attempts now, refl, failed_rests now max_attempts job false)

rewritten :
    (now : ℕ) (d : Dict ℕ BackgroundJob) (k : ℕ) (old mid new : BackgroundJob)
    → Dict.get d k ≡ some old
    → is_due now old ≡ true
    → is_due now new ≡ false
    → suc (due_in now (Dict.put (Dict.put d k mid) k new)) ≡ due_in now d
rewritten now d k old mid new found due rests = ground (
  arith,
  due,
  rests,
  count_put (is_due now) d k old mid found,
  count_put (is_due now) (Dict.put d k mid) k mid new
      (ground (arith, ==-self k, Dict.get-put d k k mid)),
)

module _ (handlers : String → Option (BackgroundJob → Handled)) (lease max_attempts now : ℕ) where
  process_step :
      (q : Queue) (key : ℕ) (job : BackgroundJob)
      → first_due now q.jobs ≡ some (key, job)
      → process_next_job handlers lease max_attempts now q
        ≡ some (
            let job' = claimed lease now job in
            settle max_attempts now
              (record q { jobs = Dict.put q.jobs key job' })
              key
              job'
              (handled (handlers job.job_type) job'))
  unfolding process_next_job
  process_step q key job p = ground (arith, p)

  -- One more job is processed, and one fewer is due; or none was.
  process_lem :
      (q : Queue)
      → IsDict q.jobs
      → ((process_next_job handlers lease max_attempts now q ≡ none) × (due_in now q.jobs ≡ 0))
        ⊎ ((q' : Queue) × (process_next_job handlers lease max_attempts now q ≡ some q')
            × IsDict q'.jobs
            × (suc (due_in now q'.jobs) ≡ due_in now q.jobs))
  unfolding process_next_job
  process_lem q h = elim (Option-cases (first_due now q.jobs)) [
    | inl p ↦ inl (ground (arith, p), first_due-none now q.jobs p)
    | inr ((key, job), p) ↦
        let (found, due) = first_due_found now q.jobs key job h p in
        let job' = claimed lease now job in
        let q' = record q { jobs = Dict.put q.jobs key job' } in
        let result = handled (handlers job.job_type) job' in
        let (settled, same, rests) = settle_lem max_attempts now q' key job' result in
        inr (
          settle max_attempts now q' key job' result,
          process_step q key job p,
          subst IsDict (sym same) (put-IsDict _ key settled (put-IsDict q.jobs key job' h)),
          ap (λ jobs. suc (due_in now jobs)) same
              ∙ rewritten now q.jobs key job job' settled found due rests,
        )
  ]

  drains_from :
      (fuel : ℕ) (q : Queue) (processed : ℕ)
      → IsDict q.jobs
      → due_in now q.jobs < fuel
      → (q' : Queue) × (run_worker_pass handlers lease max_attempts now fuel q processed
          ≡ some (processed + due_in now q.jobs, q'))
        × (due_in now q'.jobs ≡ 0)
  unfolding run_worker_pass
  drains_from zero q processed h enough = ground (arith, enough)
  drains_from (suc fuel) q processed h enough = elim (process_lem q h) [
    | inl (stops, none_due) ↦ (q, ground (arith, stops, none_due), none_due)
    | inr (next, goes, still, fewer) ↦
        let (q', runs, none_due) =
          drains_from fuel next (processed + 1) still (omega (arith, enough, fewer)) in
        (q', ground (arith, goes, runs, fewer), none_due)
  ]

  -- With one row for a job id, a worker pass at the moment `now` ends, whatever the handlers do with
  -- their jobs: it processes as many jobs as were due when it began, and leaves none due.
  pub pass_drains :
      (q : Queue)
      → IsDict q.jobs
      → (q' : Queue) × (run_worker_pass handlers lease max_attempts now (due_in now q.jobs + 1) q 0
          ≡ some (due_in now q.jobs, q'))
        × (due_in now q'.jobs ≡ 0)
  pass_drains q h =
      let (q', runs, none_due) = drains_from (due_in now q.jobs + 1) q 0 h (omega arith) in
      (q', runs ∙ ap (λ n. some (n, q')) (omega arith), none_due)
