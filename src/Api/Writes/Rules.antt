-- ===== src/Api/Writes/Rules.antt =====
-- src/mentorapp/api/write_engine.py: `validate_value` and `_native_builtin_value`. A value is one of
-- the wire or a native one of a column; Python's parsers of texts are a parameter.
use cbm_mentoring_app.Base.{
  ℕ, String, Bool, ◌&&◌, not, Option, none, some, is_some, List, [], ◌∷◌, Eq, ◌==◌, string_eq,
  ℕ_discrete, if◌then◌else◌,
}
use mathlib.Core.Bool.{Bool-discrete}

-- A number stands for an int or a float by the number of a fixed scale; a list or an object of the
-- wire is a document, by its text.
pub data Value : Type 0 where
  null : Value
  truth : Bool → Value
  number : ℕ → Value
  text : String → Value
  document : String → Value
  uuid : ℕ → Value
  datetime : ℕ → Value
  date : ℕ → Value

Value-discrete : Discrete Value
Value-discrete = hlevel (ℕ_discrete, Bool-discrete, string_eq.dec)

instance unfoldable pub value_eq : Eq Value
unfolding Value-discrete
value_eq = record { dec = Value-discrete }

-- The `fieldType` vocabulary; a type that no check names is `other`.
pub data FieldType : Type 0 where
  text : FieldType
  email : FieldType
  phone : FieldType
  rich_text : FieldType
  number : FieldType
  boolean : FieldType
  date : FieldType
  datetime : FieldType
  timestamp : FieldType
  choice : FieldType
  reference : FieldType
  id : FieldType
  other : String → FieldType

pub record OptionValue : Type 0 where
  pub option_value_id : String
  pub option_value_label : String
  pub active_flag : Bool
  pub deleted_at : Option ℕ

-- The row of the schema registry, as far as the engine reads it.
pub record SchemaRegistry : Type 0 where
  pub field_name : String
  pub field_type : FieldType
  pub field_label : String
  pub required_flag : Bool
  pub option_set : Option (List OptionValue)
  pub user_defined_flag : Bool
  pub history_tracked_flag : Bool
  pub duplicate_match_rules : List String

-- What the validator reads of a field: the protocol of both the registry's rows and a form's fields.
pub record FieldRule : Type 0 where
  pub field_name : String
  pub field_type : FieldType
  pub required_flag : Bool
  pub option_set : Option (List OptionValue)

abbrev pub rule_of : SchemaRegistry → FieldRule
rule_of row = record {
  field_name = row.field_name;
  field_type = row.field_type;
  required_flag = row.required_flag;
  option_set = row.option_set;
}

pub data Code : Type 0 where
  unknown_field : Code
  read_only_field : Code
  required_field : Code
  type_mismatch : Code
  unknown_option : Code
  inactive_option : Code

-- A structured error; its message is not modelled. One of the request has no field.
pub record ApiError : Type 0 where
  pub field_name : Option String
  pub code : Code

abbrev pub field_error : String → Code → ApiError
field_error name code = record { field_name = some name; code = code }

-- `uuid.UUID(...)`, `date.fromisoformat`, `datetime.fromisoformat` and `str`.
pub record Parsers : Type 0 where
  pub parse_uuid : String → Option ℕ
  pub parse_date : String → Option ℕ
  pub parse_datetime : String → Option ℕ
  pub str : Value → String

abbrev pub options_of : Option (List OptionValue) → List OptionValue
options_of none = []
options_of (some options) = options

-- The first option that is not deleted and has the text for its id.
unfoldable pub live_match : List OptionValue → String → Option OptionValue
live_match [] wanted = none
live_match (option ∷ options) wanted =
    let rest = live_match options wanted in
    if not (is_some option.deleted_at) && option.option_value_id == wanted
    then some option
    else rest

abbrev pub choice_code : Option OptionValue → Option Code
choice_code none = some unknown_option
choice_code (some option) = if option.active_flag then none else some inactive_option

abbrev text_code : Value → Option Code
text_code (text _) = none
text_code _ = some type_mismatch

abbrev number_code : Value → Option Code
number_code (number _) = none
number_code _ = some type_mismatch

abbrev boolean_code : Value → Option Code
boolean_code (truth _) = none
boolean_code _ = some type_mismatch

-- A parser takes a text alone, and raises `TypeError` on all else.
abbrev parsed_code : (String → Option ℕ) → Value → Option Code
parsed_code parse (text s) = if is_some (parse s) then none else some type_mismatch
parsed_code parse _ = some type_mismatch

abbrev pub with_name : String → Option Code → Option ApiError
with_name name none = none
with_name name (some code) = some (field_error name code)

module _ (p : Parsers) where
  unfoldable pub choice_problem : FieldRule → Value → Option Code
  choice_problem row value = choice_code (live_match (options_of row.option_set) (p.str value))

  unfoldable pub present_code : FieldType → FieldRule → Value → Option Code
  present_code FieldType.text row value = text_code value
  present_code FieldType.email row value = text_code value
  present_code FieldType.phone row value = text_code value
  present_code FieldType.rich_text row value = text_code value
  present_code FieldType.number row value = number_code value
  present_code FieldType.boolean row value = boolean_code value
  present_code FieldType.date row value = parsed_code p.parse_date value
  present_code FieldType.datetime row value = parsed_code p.parse_datetime value
  present_code FieldType.choice row value = choice_problem row value
  present_code FieldType.timestamp row value = none
  present_code FieldType.reference row value = none
  present_code FieldType.id row value = none
  present_code (FieldType.other _) row value = none

  abbrev pub value_code : FieldRule → Value → Option Code
  value_code row null = if row.required_flag then some required_field else none
  value_code row value = present_code row.field_type row value

  unfoldable pub validate_value : FieldRule → Value → Option ApiError
  validate_value row value = with_name row.field_name (value_code row value)

  abbrev coerced : (String → Option ℕ) → (ℕ → Value) → String → Option Value
  coerced parse native s = elim (parse s) [ none ↦ none | some n ↦ some (native n) ]

  unfoldable pub native_text : FieldType → String → Option Value
  native_text FieldType.choice s = coerced p.parse_uuid uuid s
  native_text FieldType.reference s = coerced p.parse_uuid uuid s
  native_text FieldType.id s = coerced p.parse_uuid uuid s
  native_text FieldType.datetime s = coerced p.parse_datetime datetime s
  native_text FieldType.timestamp s = coerced p.parse_datetime datetime s
  native_text FieldType.date s = coerced p.parse_date date s
  native_text _ s = some (text s)

  -- `_native_builtin_value`; `none` is its `typeMismatch`.
  unfoldable pub native_builtin_value : SchemaRegistry → Value → Option Value
  native_builtin_value row (text s) = native_text row.field_type s
  native_builtin_value row value = some value
