-- ===== src/Api/Forms/Examples.antt =====
-- src/mentorapp/api/form_validation.py: a form of two fields.
use cbm_mentoring_app.Base.{
  ◌+◌, String, ◌≡◌, inl, inr, refl, true, false, some, none, List, [], ◌∷◌, nat_eq, string_eq,
  if◌then◌else◌, ◌==◌, All, count_of,
}
use cbm_mentoring_app.Base.Dict
use cbm_mentoring_app.Base.Dict.{Dict}
use cbm_mentoring_app.Api.Writes.Rules.{
  Value, text, FieldType, SchemaRegistry, Parsers, validate_value, present_code,
  native_builtin_value, native_text, ApiError, field_error, unknown_option, required_field,
}
use cbm_mentoring_app.Api.Writes.Changes.{Registry, validate_changes}
use cbm_mentoring_app.Api.Forms.{
  FieldSettings, from_wire, is_blank, normalized_input, problems, sweep_before_save,
  validate_on_exit, place_save_errors,
}
use cbm_mentoring_app.Api.Forms.Sweeps.{sent_payload, errors-validate_changes}
use cbm_mentoring_app.Api.Forms.Placing.{IsInFieldOrder, IsFocus, is_shown, place_save_errors_lem}

abbrev parsers : Parsers
parsers = record {
  parse_uuid = λ s. if s == "id-5" then some 5 else none;
  parse_date = λ s. none;
  parse_datetime = λ s. none;
  str = λ v. "5";
}

abbrev name_row : SchemaRegistry
name_row = record {
  field_name = "name";
  field_type = FieldType.text;
  field_label = "Name";
  required_flag = true;
  option_set = none;
  user_defined_flag = false;
  history_tracked_flag = true;
  duplicate_match_rules = [];
}

abbrev notes_row : SchemaRegistry
notes_row = record {
  field_name = "notes";
  field_type = FieldType.rich_text;
  field_label = "Notes";
  required_flag = false;
  option_set = none;
  user_defined_flag = true;
  history_tracked_flag = false;
  duplicate_match_rules = [];
}

abbrev registry : Registry
registry = ("name", name_row) ∷ ("notes", notes_row) ∷ []

abbrev form : List FieldSettings
form = from_wire name_row ∷ from_wire notes_row ∷ []

abbrev typed_values : Dict String Value
typed_values = ("notes", text "  ") ∷ ("name", text "Ada") ∷ []

errors-validate_changes_example :
    (validate_changes parsers registry (sent_payload parsers typed_values) true).errors ≡ []
unfolding Dict.get string_eq validate_value native_builtin_value native_text sweep_before_save
    problems validate_on_exit normalized_input is_blank nat_eq present_code
errors-validate_changes_example =
    errors-validate_changes parsers registry form typed_values true (refl, (refl, tt))
      (
        (notes_row, refl, refl, refl, inr (inl refl), inl refl),
        ((name_row, refl, refl, refl, inl refl, inr refl), tt),
      )
      ((refl, inr (inl refl)), ((refl, inl refl), tt)) refl

abbrev errors : List ApiError
errors =
    field_error "notes" unknown_option
    ∷ field_error "rank" unknown_option
    ∷ field_error "name" required_field
    ∷ []

place_save_errors_lem_example :
    let s = place_save_errors form errors in
    (count_of (λ e. is_shown form e.field_name) s.inline
        + count_of (λ e. is_shown form e.field_name) s.form_level
      ≡ count_of (λ e. is_shown form e.field_name) errors)
    × All (λ e. is_shown form e.field_name ≡ true) s.inline
    × All (λ e. is_shown form e.field_name ≡ false) s.form_level
    × IsInFieldOrder form s.inline
    × IsFocus s.inline s.focus_field_name
place_save_errors_lem_example = place_save_errors_lem form errors (λ e. is_shown form e.field_name)
