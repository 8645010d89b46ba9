-- ===== src/Ui/Recovery.antt =====
-- src/mentorapp/ui/outage_recovery.py: the notices of an outage, and `DraftRecovery`. The wording of
-- the educate messages is left out: a notice is known by what it is about.
mod Drafts
mod Examples
use cbm_mentoring_app.Base.{
  String, Option, none, some, List, [], ◌∷◌, map, Eq, ◌==◌, string_eq, if◌then◌else◌, is_some, not,
}
use cbm_mentoring_app.Base.Exec.{
  Result, ok, err, Exec, pure, raise, gets, modify, require, refuse_if, ◌>>=◌, ◌>>◌,
}
use cbm_mentoring_app.Base.Dict
use cbm_mentoring_app.Base.Dict.{Dict}
use cbm_mentoring_app.Api.CrmWrites.{WriteFaultDisposition, transient, terminal}

pub data ValueError : Type 0 where
  value_error : ValueError

-- `EducateMessage`s, by what they tell.
pub data EducateMessage : Type 0 where
  shown_from_snapshot : String → String → EducateMessage
  unreachable : String → String → EducateMessage
  change_will_reach : String → EducateMessage
  change_refused : String → String → EducateMessage
  draft_saved : EducateMessage
  draft_offered : String → EducateMessage
  discard_asked : String → EducateMessage

pub record CrmReadNotice : Type 0 where
  pub kind : String
  pub message : EducateMessage
  pub affordances : List String
  pub detail : Option String

abbrev snapshot_notice : String → String → CrmReadNotice
snapshot_notice surface_label captured_at = record {
  kind = "snapshot";
  message = shown_from_snapshot surface_label captured_at;
  affordances = "retry" ∷ [];
  detail = none;
}

abbrev unavailable_notice : String → String → Option String → CrmReadNotice
unavailable_notice surface_label since reason = record {
  kind = "crmUnavailable";
  message = unreachable surface_label since;
  affordances = "retry" ∷ "showDetail" ∷ [];
  detail = reason;
}

unfoldable pub resolve_crm_read_state :
    String → String → String → String → Option String → Result ValueError (Option CrmReadNotice)
resolve_crm_read_state surface_label kind captured_at unavailable_since reason =
    if kind == "fresh"
    then ok none
    else if kind == "snapshot"
    then (if captured_at == ""
        then err value_error
        else ok (some (snapshot_notice surface_label captured_at)))
    else if kind == "crmUnavailable"
    then ok (some (unavailable_notice surface_label unavailable_since reason))
    else err value_error

pub record WriteFailureNotice : Type 0 where
  pub disposition : WriteFaultDisposition
  pub message : EducateMessage
  pub affordances : List String
  pub crm_cause : Option String
  pub retry_job_id : Option String

unfoldable pub write_failure_notice :
    WriteFaultDisposition → String → String → Option String → Result ValueError WriteFailureNotice
write_failure_notice transient record_title crm_cause none = err value_error
write_failure_notice transient record_title crm_cause (some job) = ok (record {
  disposition = transient;
  message = change_will_reach record_title;
  affordances = "viewRetryStatus" ∷ [];
  crm_cause = none;
  retry_job_id = some job;
})
write_failure_notice terminal record_title crm_cause (some job) = err value_error
write_failure_notice terminal record_title crm_cause none = ok (record {
  disposition = terminal;
  message = change_refused record_title crm_cause;
  affordances = "retrySubmit" ∷ "editAndResubmit" ∷ [];
  crm_cause = some crm_cause;
  retry_job_id = none;
})

-- `PreservedDraftRef.identity`
pub record DraftIdentity : Type 0 where
  pub author_user_id : String
  pub surface_key : String
  pub entity_type : String
  pub record_id : String

DraftIdentity-discrete : Discrete DraftIdentity
DraftIdentity-discrete = hlevel string_eq.dec

instance unfoldable pub draft_identity_eq : Eq DraftIdentity
unfolding DraftIdentity-discrete
draft_identity_eq = record { dec = DraftIdentity-discrete }

pub record PreservedDraftRef : Type 0 where
  pub identity : DraftIdentity
  pub saved_at : String
  pub excerpt : String

pub data UnknownDraftError : Type 0 where
  unknown_draft : DraftIdentity → UnknownDraftError

-- `DraftRecovery._drafts`
abbrev pub DraftRecovery : Type 0
DraftRecovery = Dict DraftIdentity PreservedDraftRef

abbrev pub Action : Type 0 → Type 0
Action A = Exec DraftRecovery UnknownDraftError A

unfoldable pub new_recovery : List PreservedDraftRef → DraftRecovery → DraftRecovery
new_recovery [] drafts = drafts
new_recovery (draft ∷ others) drafts = new_recovery others (Dict.put drafts draft.identity draft)

unfoldable pub draft_preserved : PreservedDraftRef → Action EducateMessage
draft_preserved draft = do modify (λ drafts. Dict.put drafts draft.identity draft); pure draft_saved

abbrev recoverable : DraftRecovery → List PreservedDraftRef
recoverable = map (λ (_, draft). draft)

abbrev pub offered : Option PreservedDraftRef → Option (PreservedDraftRef × EducateMessage)
offered none = none
offered (some draft) = some (draft, draft_offered draft.saved_at)

unfoldable pub offer_for :
    DraftIdentity → DraftRecovery → Option (PreservedDraftRef × EducateMessage)
offer_for identity drafts = offered (Dict.get drafts identity)

unfoldable pub restore : PreservedDraftRef → Action PreservedDraftRef
restore draft = do
  known ← gets (λ drafts. Dict.get drafts draft.identity)
  require known (unknown_draft draft.identity)

unfoldable pub submit_succeeded : PreservedDraftRef → Action (Unit {0})
submit_succeeded draft = modify (λ drafts. Dict.remove drafts draft.identity)

unfoldable pub discard : PreservedDraftRef → Action (Unit {0})
discard draft = do
  known ← gets (λ drafts. Dict.get drafts draft.identity)
  refuse_if (not (is_some known)) (unknown_draft draft.identity)
  modify (λ drafts. Dict.remove drafts draft.identity)
