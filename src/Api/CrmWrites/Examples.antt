-- ===== src/Api/CrmWrites/Examples.antt =====
-- src/mentorapp/api/crm_writes.py: a write that a busy CRM puts off.
use Prim.Native.Char.{char}
use Prim.Native.String
use cbm_mentoring_app.Base.{
  ◌∷◌, [], ℕ, zero, suc, String, ◌≡◌, refl, ap, Bool, true, false, none, some, nat_eq, string_eq,
}
use cbm_mentoring_app.Base.Json.{null, text, object, no_members, member}
use cbm_mentoring_app.Access.Credentials.{CrmUserCredential}
use cbm_mentoring_app.Api.CrmWrites.{
  CrmWrite, rejected, PythonJson, IsPythonJson, checked_write, Crm, crm_write_through,
  crm_write_retry_job, retry_job_payload,
}
use cbm_mentoring_app.Api.CrmWrites.Retries.{
  RetryOf, OutcomeOf, crm_write_through-crm_write_retry_job,
}

abbrev marks : ℕ → String
marks zero = ""
marks (suc n) = Prim.Native.String.◌∷◌ (char 97 tt) (marks n)

abbrev mark_count : String → ℕ
mark_count Prim.Native.String.[] = 0
mark_count (Prim.Native.String.◌∷◌ _ s) = suc (mark_count s)

abbrev json : PythonJson
json = record {
  str = λ j. elim j [ text s ↦ s | _ ↦ "" ];
  dict_of = λ j. elim j [ object fields ↦ some fields | _ ↦ none ];
  uuid_text = marks;
  parse_uuid = λ s. some (mark_count s);
}

mark_count-marks : (n : ℕ) → mark_count (marks n) ≡ n
mark_count-marks zero = refl
mark_count-marks (suc n) = ap suc (mark_count-marks n)

json-IsPythonJson : IsPythonJson json
json-IsPythonJson = record {
  str-text = λ s. refl;
  dict-object = λ fields. refl;
  parse-uuid_text = λ id. ap some (mark_count-marks id);
}

-- A CRM that is busy once and then takes every write.
abbrev busy_once : Crm
busy_once = record {
  State = Bool;
  apply = λ credential w busy.
      (elim busy [ true ↦ some (rejected 429 null "busy") | false ↦ none ], false);
}

abbrev ada : CrmUserCredential
ada = record { username = b'a' ∷ []; secret = b's' ∷ [] }

abbrev write : CrmWrite
write = record {
  crm_entity_type = "Contact";
  crm_record_id = "c-1";
  changed_fields = member "city" (text "Oslo") no_members;
  acting_user_id = 4;
  crm_write_id = 9;
}

crm_write_through-crm_write_retry_job_example :
    let (outcome, jobs, s') = crm_write_through json busy_once ada write 12 50 true in
    let (answer, after) = busy_once.apply ada write true in
    let (next, end) = busy_once.apply ada write false in
    let (handled, s'') =
      crm_write_retry_job json busy_once ada (retry_job_payload json write) false in
    (s' ≡ after)
    × OutcomeOf json json-IsPythonJson busy_once answer 12 50 write outcome jobs
    × RetryOf json json-IsPythonJson busy_once next handled
    × (s'' ≡ end)
unfolding checked_write string_eq
crm_write_through-crm_write_retry_job_example =
    crm_write_through-crm_write_retry_job json json-IsPythonJson busy_once ada ada write 12 50 true
      false refl
