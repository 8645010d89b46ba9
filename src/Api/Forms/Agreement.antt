-- ===== src/Api/Forms/Agreement.antt =====
-- src/mentorapp/api/form_validation.py: `sweep_before_save` against the write engine's validation of
-- what the form sends.
use cbm_mentoring_app.Base.{
  String, ◌≡◌, refl, ap, Option, none, some, List, [], ◌∷◌, map, string_eq, arith,
}
use cbm_mentoring_app.Api.Writes.Rules.{
  Value, null, FieldType, OptionValue, SchemaRegistry, rule_of, Parsers, live_match, validate_value,
  choice_code, with_name, value_code, options_of, truth, number, text, document, uuid, datetime,
  date, choice_problem, present_code,
}
use cbm_mentoring_app.Api.Forms.{
  served, from_wire, live_option, served_set, live_set, settings_rule,
}

-- The choice check sees the same options through the schema endpoint.
choice-served :
    (options : List OptionValue) (wanted : String)
    → choice_code (live_match (map live_option (served options)) wanted)
      ≡ choice_code (live_match options wanted)
unfolding served live_match
choice-served [] wanted = refl
choice-served (o ∷ options) wanted = ground (arith, choice-served options wanted)

set_same :
    (options : Option (List OptionValue)) (wanted : String)
    → choice_code (live_match (options_of (live_set (served_set options))) wanted)
      ≡ choice_code (live_match (options_of options) wanted)
set_same none wanted = refl
set_same (some options) wanted = choice-served options wanted

module _ (p : Parsers) where
  choice_same :
      (row : SchemaRegistry) (value : Value)
      → choice_problem p (settings_rule (from_wire row)) value
        ≡ choice_problem p (rule_of row) value
  unfolding choice_problem
  choice_same row value = set_same row.option_set (p.str value)

  present_same :
      (t : FieldType) (row : SchemaRegistry) (value : Value)
      → present_code p t (settings_rule (from_wire row)) value
        ≡ present_code p t (rule_of row) value
  unfolding present_code
  present_same FieldType.choice row value = choice_same row value
  present_same FieldType.text row value = refl
  present_same FieldType.email row value = refl
  present_same FieldType.phone row value = refl
  present_same FieldType.rich_text row value = refl
  present_same FieldType.number row value = refl
  present_same FieldType.boolean row value = refl
  present_same FieldType.date row value = refl
  present_same FieldType.datetime row value = refl
  present_same FieldType.timestamp row value = refl
  present_same FieldType.reference row value = refl
  present_same FieldType.id row value = refl
  present_same (FieldType.other s) row value = refl

  code_same :
      (row : SchemaRegistry) (value : Value)
      → value_code p (settings_rule (from_wire row)) value ≡ value_code p (rule_of row) value
  code_same row null = refl
  code_same row (truth b) = present_same row.field_type row (truth b)
  code_same row (number n) = present_same row.field_type row (number n)
  code_same row (text s) = present_same row.field_type row (text s)
  code_same row (document s) = present_same row.field_type row (document s)
  code_same row (uuid n) = present_same row.field_type row (uuid n)
  code_same row (datetime n) = present_same row.field_type row (datetime n)
  code_same row (date n) = present_same row.field_type row (date n)

  -- The form and the server validate a value alike.
  pub validate_same :
      (row : SchemaRegistry) (value : Value)
      → validate_value p (settings_rule (from_wire row)) value
        ≡ validate_value p (rule_of row) value
  unfolding validate_value
  validate_same row value = ap (with_name row.field_name) (code_same row value)
