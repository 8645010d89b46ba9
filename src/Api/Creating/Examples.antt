-- ===== src/Api/Creating/Examples.antt =====
-- src/mentorapp/api/record_create.py: a create form of one field.
use cbm_mentoring_app.Base.{
  ◌≡◌, refl, inl, inr, true, false, some, none, [], ◌∷◌, nat_eq, string_eq, List,
}
use cbm_mentoring_app.Base.Exec.{ok}
use cbm_mentoring_app.Base.Dict
use cbm_mentoring_app.Api.Writes.Rules.{
  text, null, FieldType, SchemaRegistry, Parsers, validate_value, present_code,
  native_builtin_value, native_text, value_eq,
}
use cbm_mentoring_app.Api.Writes.Changes.{Registry}
use cbm_mentoring_app.Api.Writes.Matching.{TextMethods}
use cbm_mentoring_app.Api.Writes.Creates.{create_record}
use cbm_mentoring_app.Api.Forms.{
  from_wire, is_blank, normalized_input, problems, sweep_before_save, validate_on_exit,
}
use cbm_mentoring_app.Api.EditSafety.Windows.{close_allowed}
use cbm_mentoring_app.Api.Creating.{FieldPayload, CreateFlow, create_form_seed, new_flow}
use cbm_mentoring_app.Api.Creating.Flow.{
  edit_value, commit_of, request_save, save_rejected_duplicates, request_close, cancel,
}
use cbm_mentoring_app.Api.Creating.Histories.{
  Sent, Call, edits, saves, continues, rejected, not_rejected, run, AllJustified, run-AllJustified,
}
use cbm_mentoring_app.Api.Creating.Commits.{IsAnswer, request_save-create_record}
use cbm_mentoring_app.Api.Creating.Closing.{IsHonest, request_close-IsHonest}

abbrev parsers : Parsers
parsers = record {
  parse_uuid = λ s. none;
  parse_date = λ s. none;
  parse_datetime = λ s. none;
  str = λ v. "";
}

abbrev methods : TextMethods
methods = record { is_digit = λ c. false; lower = λ s. s; sql_lower_trim = λ v. none }

abbrev name_row : SchemaRegistry
name_row = record {
  field_name = "name";
  field_type = FieldType.text;
  field_label = "Name";
  required_flag = true;
  option_set = none;
  user_defined_flag = false;
  history_tracked_flag = true;
  duplicate_match_rules = "name" ∷ [];
}

abbrev registry : Registry
registry = ("name", name_row) ∷ []

abbrev fields : List FieldPayload
fields =
    record {
      settings = from_wire name_row;
      default_value = null;
      duplicate_match_rules = "name" ∷ [];
    }
    ∷ []

abbrev opened : CreateFlow
opened = new_flow "window" "mentee" fields

-- Ada is typed in, and the server has rejected her as a duplicate once.
abbrev rejected_once : CreateFlow
rejected_once = (save_rejected_duplicates (edit_value opened "name" (text "Ada")) []).1

abbrev calls : List Call
calls = edits "name" (text "Ada") ∷ saves (rejected []) ∷ continues not_rejected ∷ []

run-AllJustified_example :
    (log : List Sent) × (flow : CreateFlow) × (run parsers calls opened ≡ ok (log, flow))
    × AllJustified [] log
run-AllJustified_example = run-AllJustified parsers calls "window" "mentee" fields

request_save-create_record_example :
    IsAnswer parsers
      (commit_of rejected_once)
      (create_record 1 5 none true
        (some "userContinuedPastDuplicateOffer")
        methods
        parsers
        []
        registry
        []
        (("name", text "Ada") ∷ [])).0
unfolding Dict.get Dict.put string_eq validate_value native_builtin_value native_text
    sweep_before_save problems validate_on_exit normalized_input is_blank present_code request_save
    edit_value save_rejected_duplicates new_flow create_form_seed nat_eq
request_save-create_record_example =
    request_save-create_record parsers 1 5 none rejected_once (commit_of rejected_once) methods []
      registry [] (refl, tt) ((name_row, refl, refl, refl, inl refl, inr refl), tt)
      ((refl, inr (inl refl)), tt) refl

request_close-IsHonest_example :
    IsHonest rejected_once (request_close rejected_once)
    × (request_close (cancel rejected_once) ≡ close_allowed "window")
unfolding save_rejected_duplicates edit_value new_flow
request_close-IsHonest_example = request_close-IsHonest rejected_once
