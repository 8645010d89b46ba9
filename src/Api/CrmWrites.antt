-- ===== src/Api/CrmWrites.antt =====
-- src/mentorapp/crm/write_through.py and src/mentorapp/api/crm_writes.py: the CRM write of a request,
-- its one fork on a fault, and the retry job. The CRM is a parameter: what `apply` answers and
-- leaves. So are Python's `str` and `dict` of a JSON value and the text of a UUID.
pub mod Retries
mod Examples
use cbm_mentoring_app.Base.{
  ℕ, String, ◌≡◌, Bool, true, false, ◌&&◌, ◌||◌, not, Option, none, some, List, [], ◌∷◌, ◌==◌,
  nat_eq, string_eq, if◌then◌else◌,
}
use cbm_mentoring_app.Base.Options.{◌>>=◌}
use cbm_mentoring_app.Base.Json.{
  Json, null, truth, number, text, array, object, Items, no_items, item, Members, no_members,
  member,
}
use cbm_mentoring_app.Access.Credentials.{CrmUserCredential}
use cbm_mentoring_app.Automation.Worker.{
  BackgroundJob, pending, Handled, finished, fails_for_good, fails,
}

pub record CrmWrite : Type 0 where
  pub crm_entity_type : String
  pub crm_record_id : String
  pub changed_fields : Members
  pub acting_user_id : ℕ
  pub crm_write_id : ℕ

-- `CrmUnavailableError`, `EspoOperationRejectedError`, and any other exception with its class's
-- name; each with its `str`.
pub data Fault : Type 0 where
  unavailable : String → Fault
  rejected : ℕ → Json → String → Fault
  other : String → String → Fault

pub data WriteFaultDisposition : Type 0 where
  transient : WriteFaultDisposition
  terminal : WriteFaultDisposition

unfoldable pub classify_crm_write_fault : Fault → WriteFaultDisposition
classify_crm_write_fault (unavailable _) = transient
classify_crm_write_fault (rejected status _ _) =
    if status == 408 || status == 429 then transient else terminal
classify_crm_write_fault (other _ _) = terminal

pub record PythonJson : Type 0 where
  pub str : Json → String
  pub dict_of : Json → Option Members
  pub uuid_text : ℕ → String
  pub parse_uuid : String → Option ℕ

-- What is relied on: a text's `str` is itself, a dict's `dict` is a copy, a UUID's text reads back.
pub record IsPythonJson (py : PythonJson) : Type 0 where
  pub str-text : (s : String) → py.str (text s) ≡ s
  pub dict-object : (fields : Members) → py.dict_of (object fields) ≡ some fields
  pub parse-uuid_text : (id : ℕ) → py.parse_uuid (py.uuid_text id) ≡ some id

-- `payload[name]`: `none` is the `KeyError`. The last of two entries wins, as in a dict.
unfoldable pub key_of : Members → String → Option Json
key_of no_members name = none
key_of (member key value rest) name =
    let found = key_of rest name in
    if name == key then elim found [ none ↦ some value | some later ↦ some later ] else found

abbrev is_no_members : Members → Bool
is_no_members no_members = true
is_no_members (member _ _ _) = false

-- `CrmWrite.__post_init__`; `none` is its `ValueError`.
unfoldable pub checked_write : CrmWrite → Option CrmWrite
checked_write w = if w.crm_record_id == "" || is_no_members w.changed_fields then none else some w

module _ (py : PythonJson) where
  unfoldable pub retry_job_payload : CrmWrite → Members
  retry_job_payload w = member "crmWriteID" (text (py.uuid_text w.crm_write_id)) (
      member "crmEntityType" (text w.crm_entity_type) (
        member "crmRecordID" (text w.crm_record_id) (
          member "changedFields" (object w.changed_fields)
            (member "actingUserID" (text (py.uuid_text w.acting_user_id)) no_members))))

  -- `none` is any of the errors that the handler calls a malformed payload.
  unfoldable pub write_from_retry_payload : Members → Option CrmWrite
  write_from_retry_payload payload = do
    entity_type ← key_of payload "crmEntityType"
    record_id ← key_of payload "crmRecordID"
    changed ← key_of payload "changedFields"
    fields ← py.dict_of changed
    user ← key_of payload "actingUserID"
    user_id ← py.parse_uuid (py.str user)
    write ← key_of payload "crmWriteID"
    write_id ← py.parse_uuid (py.str write)
    checked_write (record {
      crm_entity_type = py.str entity_type;
      crm_record_id = py.str record_id;
      changed_fields = fields;
      acting_user_id = user_id;
      crm_write_id = write_id;
    })

abbrev class_name : Fault → String
class_name (unavailable _) = "CrmUnavailableError"
class_name (rejected _ _ _) = "EspoOperationRejectedError"
class_name (other name _) = name

abbrev pub fault_text : Fault → String
fault_text (unavailable s) = s
fault_text (rejected _ _ s) = s
fault_text (other _ s) = s

abbrev text_or : String → String → String
text_or s default = if s == "" then default else s

-- `bool(value)`
abbrev is_truthy : Json → Bool
is_truthy null = false
is_truthy (truth b) = b
is_truthy (number n) = not (n == 0)
is_truthy (text s) = not (s == "")
is_truthy (array no_items) = false
is_truthy (array (item _ _)) = true
is_truthy (object fields) = not (is_no_members fields)

abbrev message_of : Json → Option Json
message_of (object fields) = key_of fields "message"
message_of _ = none

abbrev cause_or : PythonJson → Option Json → String → String
cause_or py none default = default
cause_or py (some message) default = if is_truthy message then py.str message else default

unfoldable pub crm_fault_cause : PythonJson → Fault → String
crm_fault_cause py (rejected status payload s) =
    cause_or py (message_of payload) (text_or s "EspoOperationRejectedError")
crm_fault_cause py (unavailable s) = text_or s (class_name (unavailable s))
crm_fault_cause py (other name s) = text_or s (class_name (other name s))

pub data CrmWriteOutcome : Type 0 where
  write_applied : CrmWriteOutcome
  write_deferred : ℕ → String → CrmWriteOutcome
  write_refused : String → Fault → CrmWriteOutcome

-- A queued retry: the job's row and its payload.
pub record RetryJob : Type 0 where
  pub job : BackgroundJob
  pub job_payload : Members

-- `enqueue_job`, of a job that is due at once; `job_id` is the fresh key.
abbrev pub enqueued : ℕ → ℕ → Members → ℕ → RetryJob
enqueued job_id now payload acting_user_id = record {
  job = record {
    job_id = job_id;
    job_type = "crmWriteRetry";
    job_status = pending;
    run_after = now;
    locked_until = none;
    attempt_count = 0;
    created_by = some acting_user_id;
    artifact_url = none;
    job_expires_at = none;
    is_deleted = false;
  };
  job_payload = payload;
}

-- The CRM at the other end of the seam `CrmWriteThrough`: what `apply` raises, and what it leaves.
pub record Crm : Type 1 where
  pub State : Type 0
  pub apply : CrmUserCredential → CrmWrite → State → Option Fault × State

module _ (py : PythonJson) (crm : Crm) where
  abbrev pub fork :
      WriteFaultDisposition → Fault → ℕ → ℕ → CrmWrite → CrmWriteOutcome × List RetryJob
  fork transient fault job_id now w = (
    write_deferred job_id
        (text_or (fault_text fault) "The CRM could not take the write right now."),
    enqueued job_id now (retry_job_payload py w) w.acting_user_id ∷ [],
  )
  fork terminal fault job_id now w = (write_refused (crm_fault_cause py fault) fault, [])

  abbrev pub forked : Option Fault → ℕ → ℕ → CrmWrite → CrmWriteOutcome × List RetryJob
  forked none job_id now w = (write_applied, [])
  forked (some fault) job_id now w = fork (classify_crm_write_fault fault) fault job_id now w

  -- The outcome, the jobs that the session enqueues, and the CRM after the one attempt.
  unfoldable pub crm_write_through :
      CrmUserCredential → CrmWrite → ℕ → ℕ → crm.State → CrmWriteOutcome × List RetryJob × crm.State
  crm_write_through credential w job_id now s =
      let (answer, s') = crm.apply credential w s in
      let (outcome, jobs) = forked answer job_id now w in (outcome, jobs, s')

  abbrev pub judged : WriteFaultDisposition → Handled
  judged transient = fails
  judged terminal = fails_for_good

  abbrev pub handled_answer : Option Fault → Handled
  handled_answer none = finished none
  handled_answer (some fault) = judged (classify_crm_write_fault fault)

  abbrev pub retried : CrmUserCredential → Option CrmWrite → crm.State → Handled × crm.State
  retried credential none s = (fails_for_good, s)
  retried credential (some w) s =
      let (answer, s') = crm.apply credential w s in (handled_answer answer, s')

  -- The handler that `crm_write_retry_job` makes, on the payload of a job.
  unfoldable pub crm_write_retry_job : CrmUserCredential → Members → crm.State → Handled × crm.State
  crm_write_retry_job credential payload s =
      retried credential (write_from_retry_payload py payload) s
