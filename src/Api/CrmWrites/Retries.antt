-- ===== src/Api/CrmWrites/Retries.antt =====
-- src/mentorapp/api/crm_writes.py: a deferred write and the retry of it.
use cbm_mentoring_app.Automation.Worker.{Handled, finished, fails, fails_for_good, pending}
use cbm_mentoring_app.Base.{
  arith, ◌⊎◌, inl, inr, sym, subst, ◌==◌, ◌||◌, Bool-cases, ℕ, ◌≡◌, refl, ap, Option, none, some,
  List, [], ◌∷◌, nat_eq, string_eq,
}
use cbm_mentoring_app.Access.Credentials.{CrmUserCredential}
use cbm_mentoring_app.Api.CrmWrites.{
  unavailable, rejected, other, judged, CrmWrite, Fault, WriteFaultDisposition, transient, terminal,
  classify_crm_write_fault, PythonJson, IsPythonJson, key_of, checked_write, retry_job_payload,
  write_from_retry_payload, crm_fault_cause, CrmWriteOutcome, write_applied, write_deferred,
  write_refused, RetryJob, enqueued, Crm, fork, forked, crm_write_through, handled_answer, retried,
  crm_write_retry_job,
}

-- A fault that passes: the CRM was not reached, or it answered that it timed out or has too many
-- requests.
abbrev pub Passes : Fault → Type 0
Passes (unavailable _) = Unit
Passes (rejected status _ _) = (status ≡ 408) ⊎ (status ≡ 429)
Passes (other _ _) = ⊥

abbrev pub Classified : WriteFaultDisposition → Fault → Type 0
Classified transient fault = Passes fault
Classified terminal fault = ¬ Passes fault

classify_lem : (fault : Fault) → Classified (classify_crm_write_fault fault) fault
unfolding classify_crm_write_fault
classify_lem (unavailable _) = tt
classify_lem (rejected status payload s) = elim (Bool-cases (status == 408 || status == 429)) [
  | inl on ↦ rw on (elim (Bool-cases (status == 408)) [
    | inl late ↦ inl (ground (arith, late))
    | inr other_status ↦ inr (ground (arith, on, other_status))
  ])
  | inr off ↦ rw off (λ passes. ground (arith, off, passes))
]
classify_lem (other name s) = λ passes. passes

module _ (py : PythonJson) (law : IsPythonJson py) where
  retry_job_payload-round_trip :
      (w : CrmWrite)
      → checked_write w ≡ some w
      → write_from_retry_payload py (retry_job_payload py w) ≡ some w
  unfolding write_from_retry_payload retry_job_payload key_of string_eq
  retry_job_payload-round_trip w valid =
      rw
        (
          law.dict-object w.changed_fields,
          law.str-text (py.uuid_text w.acting_user_id),
          law.parse-uuid_text w.acting_user_id,
          law.str-text (py.uuid_text w.crm_write_id),
          law.parse-uuid_text w.crm_write_id,
          law.str-text w.crm_entity_type,
          law.str-text w.crm_record_id,
        )
        valid

  module _ (crm : Crm) where
    -- One job that is due at once, for its first attempt, and whose payload decodes to the write.
    abbrev pub Awaits : ℕ → ℕ → CrmWrite → RetryJob → Type 0
    Awaits job_id now w queued =
        (queued.job.job_id ≡ job_id)
        × (queued.job.job_type ≡ "crmWriteRetry")
        × (queued.job.job_status ≡ pending)
        × (queued.job.run_after ≡ now)
        × (queued.job.attempt_count ≡ 0)
        × (queued.job.created_by ≡ some w.acting_user_id)
        × (write_from_retry_payload py queued.job_payload ≡ some w)

    -- What a request's answer says of the one attempt: the write landed, or it waits in a job that
    -- holds the very write, or it is refused and nothing waits.
    abbrev pub OutcomeOf :
        Option Fault → ℕ → ℕ → CrmWrite → CrmWriteOutcome → List RetryJob → Type 0
    OutcomeOf answer job_id now w write_applied jobs = (answer ≡ none) × (jobs ≡ [])
    OutcomeOf answer job_id now w (write_deferred id reason) jobs =
        (fault : Fault) × (answer ≡ some fault)
        × Passes fault
        × (id ≡ job_id)
        × ((queued : RetryJob) × (jobs ≡ queued ∷ []) × Awaits job_id now w queued)
    OutcomeOf answer job_id now w (write_refused cause fault) jobs =
        (answer ≡ some fault) × ¬ Passes fault × (cause ≡ crm_fault_cause py fault) × (jobs ≡ [])

    -- How the handler leaves the job after the CRM's answer to the second attempt.
    abbrev pub RetryOf : Option Fault → Handled → Type 0
    RetryOf none handled = handled ≡ finished none
    RetryOf (some fault) handled =
        (Passes fault × (handled ≡ fails)) ⊎ (¬ Passes fault × (handled ≡ fails_for_good))

    fork-OutcomeOf :
        (d : WriteFaultDisposition) (fault : Fault) (job_id now : ℕ) (w : CrmWrite)
        → checked_write w ≡ some w
        → Classified d fault
        → let (outcome, jobs) = fork py crm d fault job_id now w in
          OutcomeOf (some fault) job_id now w outcome jobs
    fork-OutcomeOf transient fault job_id now w valid e = (
      fault,
      refl,
      e,
      refl,
      (
        enqueued job_id now (retry_job_payload py w) w.acting_user_id,
        refl,
        (refl, refl, refl, refl, refl, refl, retry_job_payload-round_trip w valid),
      ),
    )
    fork-OutcomeOf terminal fault job_id now w valid e = (refl, e, refl, refl)

    forked-OutcomeOf :
        (answer : Option Fault) (job_id now : ℕ) (w : CrmWrite)
        → checked_write w ≡ some w
        → let (outcome, jobs) = forked py crm answer job_id now w in
          OutcomeOf answer job_id now w outcome jobs
    forked-OutcomeOf none job_id now w valid = (refl, refl)
    forked-OutcomeOf (some fault) job_id now w valid =
        fork-OutcomeOf (classify_crm_write_fault fault) fault job_id now w valid
          (classify_lem fault)

    judged-RetryOf :
        (d : WriteFaultDisposition) (fault : Fault)
        → Classified d fault
        → RetryOf (some fault) (judged py crm d)
    judged-RetryOf transient fault h = inl (h, refl)
    judged-RetryOf terminal fault h = inr (h, refl)

    handled_answer-RetryOf : (answer : Option Fault) → RetryOf answer (handled_answer py crm answer)
    handled_answer-RetryOf none = refl
    handled_answer-RetryOf (some fault) =
        judged-RetryOf (classify_crm_write_fault fault) fault (classify_lem fault)

    retry_lem :
        (integration : CrmUserCredential) (w : CrmWrite) (later : crm.State)
        → checked_write w ≡ some w
        → let (next, end) = crm.apply integration w later in
          crm_write_retry_job py crm integration (retry_job_payload py w) later
          ≡ (handled_answer py crm next, end)
    unfolding crm_write_retry_job
    retry_lem integration w later valid =
        ap (λ o. retried py crm integration o later) (retry_job_payload-round_trip w valid)

    -- A write that is valid is attempted once, and the answer is that attempt's: applied where the
    -- CRM took it; deferred on a fault that passes, with one job under the fresh key, due at once,
    -- for its first attempt and of the acting user, whose payload decodes to the very same write;
    -- refused on any other fault, with its cause and no job. The retry of that job attempts the same
    -- write under the integration credential, and it is finished, retried later or parked for good
    -- just as the CRM's next answer is none, a fault that passes or any other.
    pub crm_write_through-crm_write_retry_job :
        (credential integration : CrmUserCredential) (w : CrmWrite) (job_id now : ℕ)
        (s later : crm.State)
        → checked_write w ≡ some w
        → let (outcome, jobs, s') = crm_write_through py crm credential w job_id now s in
          let (answer, after) = crm.apply credential w s in
          let (next, end) = crm.apply integration w later in
          let (handled, s'') =
            crm_write_retry_job py crm integration (retry_job_payload py w) later in
          (s' ≡ after)
          × OutcomeOf answer job_id now w outcome jobs
          × RetryOf next handled
          × (s'' ≡ end)
    unfolding crm_write_through
    crm_write_through-crm_write_retry_job credential integration w job_id now s later valid =
        let again = retry_lem integration w later valid in
        let next = (crm.apply integration w later).0 in
        (
          refl,
          forked-OutcomeOf (crm.apply credential w s).0 job_id now w valid,
          subst (RetryOf next) (sym (ap (λ p. p.0) again)) (handled_answer-RetryOf next),
          ap (λ p. p.1) again,
        )
