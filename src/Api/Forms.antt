-- ===== src/Api/Forms.antt =====
-- src/mentorapp/api/form_validation.py: the form's side of validation, over the field settings that
-- src/mentorapp/api/routers/schema.py serves. The ids of option sets are left out.
pub mod Agreement
pub mod Sweeps
pub mod Placing
mod Examples
use Prim.Native.Char.{Char, code}
use Prim.Native.String
use cbm_mentoring_app.Base.{
  ℕ, suc, ◌+◌, String, Bool, true, false, ◌&&◌, ◌||◌, not, Option, none, some, is_some, List, [],
  ◌∷◌, ◌++◌, map, keep, ◌==◌, nat_eq, string_eq, if◌then◌else◌, ltb, leb, or_else, contains,
}
use cbm_mentoring_app.Base.Text.{is_space}
use cbm_mentoring_app.Base.Dict
use cbm_mentoring_app.Base.Dict.{Dict}
use cbm_mentoring_app.Api.Writes.Rules.{
  Value, null, text, FieldType, OptionValue, SchemaRegistry, FieldRule, ApiError, Parsers,
  validate_value,
}
use cbm_mentoring_app.Api.Writes.Merges.{value_of}

pub record OptionValueSettings : Type 0 where
  pub option_value_id : String
  pub option_value_label : String
  pub active_flag : Bool

pub record FieldSettings : Type 0 where
  pub field_name : String
  pub field_type : FieldType
  pub field_label : String
  pub required_flag : Bool
  pub option_set : Option (List OptionValueSettings)

-- The values that the schema endpoint serves: all but the deleted ones.
unfoldable pub served : List OptionValue → List OptionValueSettings
served [] = []
served (o ∷ options) =
    let rest = served options in
    if is_some o.deleted_at
    then rest
    else record {
      option_value_id = o.option_value_id;
      option_value_label = o.option_value_label;
      active_flag = o.active_flag;
    }
      ∷ rest

abbrev pub served_set : Option (List OptionValue) → Option (List OptionValueSettings)
served_set none = none
served_set (some options) = some (served options)

-- `FieldSettings.from_wire` of the row's payload.
abbrev pub from_wire : SchemaRegistry → FieldSettings
from_wire row = record {
  field_name = row.field_name;
  field_type = row.field_type;
  field_label = row.field_label;
  required_flag = row.required_flag;
  option_set = served_set row.option_set;
}

abbrev pub live_option : OptionValueSettings → OptionValue
live_option o = record {
  option_value_id = o.option_value_id;
  option_value_label = o.option_value_label;
  active_flag = o.active_flag;
  deleted_at = none;
}

abbrev pub live_set : Option (List OptionValueSettings) → Option (List OptionValue)
live_set none = none
live_set (some options) = some (map live_option options)

-- The settings as the rule that the validator reads.
abbrev pub settings_rule : FieldSettings → FieldRule
settings_rule f = record {
  field_name = f.field_name;
  field_type = f.field_type;
  required_flag = f.required_flag;
  option_set = live_set f.option_set;
}

abbrev required_marker : String
required_marker = "*"

unfoldable pub form_label : FieldSettings → String
form_label f =
    if f.required_flag
    then Prim.Native.String.◌++◌ f.field_label (Prim.Native.String.◌++◌ " " required_marker)
    else f.field_label

-- `not text.strip()`
unfoldable pub is_blank : String → Bool
is_blank Prim.Native.String.[] = true
is_blank (Prim.Native.String.◌∷◌ c s) = is_space (code c) && is_blank s

unfoldable pub normalized_input : Value → Value
normalized_input (text s) = if is_blank s then null else text s
normalized_input value = value

pub record ValidationSweep : Type 0 where
  pub inline : List ApiError
  pub form_level : List ApiError
  pub focus_field_name : Option String

abbrev is_empty_list : List ApiError → Bool
is_empty_list [] = true
is_empty_list (_ ∷ _) = false

-- `ValidationSweep.ok`
abbrev pub sweep_ok : ValidationSweep → Bool
sweep_ok s = is_empty_list s.inline && is_empty_list s.form_level

abbrev pub first_field : List ApiError → Option String
first_field [] = none
first_field (e ∷ _) = e.field_name

abbrev pub kept_error : Option ApiError → List ApiError → List ApiError
kept_error none errors = errors
kept_error (some e) errors = e ∷ errors

module _ (p : Parsers) where
  unfoldable pub validate_on_exit : FieldSettings → Value → Option ApiError
  validate_on_exit f raw_value = validate_value p (settings_rule f) (normalized_input raw_value)

  unfoldable pub problems : List FieldSettings → Dict String Value → List ApiError
  problems [] values = []
  problems (f ∷ fields) values =
      kept_error (validate_on_exit f (value_of values f.field_name)) (problems fields values)

  unfoldable pub sweep_before_save : List FieldSettings → Dict String Value → ValidationSweep
  sweep_before_save fields values =
      let found = problems fields values in
      record { inline = found; form_level = []; focus_field_name = first_field found }

-- `{settings.field_name: i for i, settings in enumerate(fields)}`, from a given index on.
unfoldable pub display_order : List FieldSettings → ℕ → Dict String ℕ → Dict String ℕ
display_order [] i order = order
display_order (f ∷ fields) i order = display_order fields (suc i) (Dict.put order f.field_name i)

module _ (order : Dict String ℕ) where
  abbrev pub place_of_name : Option String → Option ℕ
  place_of_name none = none
  place_of_name (some name) = Dict.get order name

  abbrev pub place_of : ApiError → Option ℕ
  place_of e = place_of_name e.field_name

  abbrev pub is_displayed : ApiError → Bool
  is_displayed e = is_some (place_of e)

  -- The sort's key of a displayed error.
  abbrev pub sort_key : ApiError → ℕ
  sort_key e = or_else (place_of e) 0

  unfoldable pub insert_error : ApiError → List ApiError → List ApiError
  insert_error e [] = e ∷ []
  insert_error e (x ∷ xs) =
      let rest = insert_error e xs in if leb (sort_key e) (sort_key x) then e ∷ x ∷ xs else x ∷ rest

  unfoldable pub sorted_errors : List ApiError → List ApiError
  sorted_errors [] = []
  sorted_errors (e ∷ errors) = insert_error e (sorted_errors errors)

unfoldable pub place_save_errors : List FieldSettings → List ApiError → ValidationSweep
place_save_errors fields errors =
    let order = display_order fields 0 [] in
    let inline = sorted_errors order (keep (is_displayed order) errors) in
    record {
      inline = inline;
      form_level = keep (λ e. not (is_displayed order e)) errors;
      focus_field_name = first_field inline;
    }
