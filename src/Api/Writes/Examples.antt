-- ===== src/Api/Writes/Examples.antt =====
-- src/mentorapp/api/write_engine.py: a registry of two fields and the writes of one mentee.
use cbm_mentoring_app.Base.{
  String, ◌≡◌, ◌⊎◌, refl, true, false, some, none, [], ◌∷◌, nat_eq, string_eq, if◌then◌else◌, ◌==◌,
}
use cbm_mentoring_app.Base.Dict
use cbm_mentoring_app.Base.Dict.{Dict}
use cbm_mentoring_app.Base.Exec.{ok}
use cbm_mentoring_app.Api.Writes.Rules.{
  Value, text, number, FieldType, SchemaRegistry, Parsers, validate_value, present_code,
  native_builtin_value, native_text,
}
use cbm_mentoring_app.Api.Writes.Changes.{validate_all, Registry, verdict, validate_changes}
use cbm_mentoring_app.Api.Writes.Updates.{
  Mapping, missing_attribute, EntityRecord, Added, lands, raced, partial_update, restore_record,
  nothing_added,
}
use cbm_mentoring_app.Api.Writes.Patches.{
  IsPatched, IsCommitted, says_new, checked_payload, partial_update-IsPatched,
}
use cbm_mentoring_app.Api.Writes.Refused.{IsDecided, partial_update-IsDecided}
use cbm_mentoring_app.Api.Writes.Restores.{RestoreOutcome, restore_record_lem}
use cbm_mentoring_app.Api.Writes.Matching.{TextMethods}
use cbm_mentoring_app.Api.Writes.Creates.{create_record}
use cbm_mentoring_app.Api.Writes.Duplicates.{CreateOutcome, create_record_lem}

abbrev methods : TextMethods
methods = record {
  is_digit = λ c. true;
  lower = λ s. s;
  sql_lower_trim = λ v. elim v [ text s ↦ some s | _ ↦ none ];
}

abbrev parsers : Parsers
parsers = record {
  parse_uuid = λ s. if s == "id-5" then some 5 else none;
  parse_date = λ s. none;
  parse_datetime = λ s. none;
  str = λ v. "5";
}

abbrev city_row : SchemaRegistry
city_row = record {
  field_name = "city";
  field_type = FieldType.text;
  field_label = "City";
  required_flag = true;
  option_set = none;
  user_defined_flag = false;
  history_tracked_flag = true;
  duplicate_match_rules = [];
}

abbrev age_row : SchemaRegistry
age_row = record {
  field_name = "age";
  field_type = FieldType.number;
  field_label = "Age";
  required_flag = false;
  option_set = none;
  user_defined_flag = true;
  history_tracked_flag = false;
  duplicate_match_rules = [];
}

abbrev registry : Registry
registry = ("city", city_row) ∷ ("age", age_row) ∷ []

abbrev mentee : EntityRecord
mentee = record {
  record_id = 7;
  row_version = 3;
  deleted_at = none;
  deleted_by = none;
  columns = ("city", text "Rome") ∷ [];
  custom_attributes = [];
  created_by = none;
  modified_by = none;
  modified_at = 10;
}

abbrev changes : Dict String Value
changes = ("city", text "Oslo") ∷ ("age", number 41) ∷ []

abbrev class_of : Mapping
class_of = record {
  key_field = "menteeID";
  id_of = λ v. elim v [ number n ↦ n | _ ↦ 0 ];
  attribute_names = "menteeID" ∷ "city" ∷ "age" ∷ [];
  jsonable_encoder = λ v. v;
}

partial_update-IsPatched_example :
    (r' : EntityRecord) × (added : Added) × (partial_update class_of parsers registry mentee changes
        3 20
        (some 2)
        lands
      ≡ (ok r', added))
    × IsPatched parsers registry changes mentee r'
    × (((says_new mentee (checked_payload class_of parsers registry mentee changes 20 (some 2))
            ≡ true)
          × IsCommitted class_of parsers registry mentee changes 20 (some 2) r' added)
        ⊎ ((says_new mentee (checked_payload class_of parsers registry mentee changes 20 (some 2))
              ≡ false)
            × (r' ≡ mentee)
            × (added ≡ nothing_added)))
unfolding Dict.get Dict.put string_eq verdict validate_value validate_changes validate_all
    missing_attribute native_builtin_value native_text present_code
partial_update-IsPatched_example =
    partial_update-IsPatched class_of parsers registry mentee changes 20 (some 2) 3
      (refl, (refl, tt)) refl refl (tt, (tt, tt)) refl

partial_update-IsDecided_example :
    IsDecided mentee
      (validate_changes parsers registry changes false).errors
      (missing_attribute class_of.attribute_names
        (validate_changes parsers registry changes false).builtin)
      3
      (raced (some mentee))
      (partial_update class_of parsers registry mentee changes 3 20 (some 2) (raced (some mentee)))
partial_update-IsDecided_example =
    partial_update-IsDecided class_of parsers registry mentee changes 3 20 (some 2)
      (raced (some mentee))

abbrev removed : EntityRecord
removed = record mentee { deleted_at = some 12 }

restore_record_lem_example :
    RestoreOutcome removed 3 20 (some 2) lands (restore_record removed 3 20 (some 2) lands)
restore_record_lem_example = restore_record_lem 3 20 (some 2) lands removed

abbrev unique_registry : Registry
unique_registry = ("city", record city_row { duplicate_match_rules = "byCity" ∷ [] }) ∷ []

create_record_lem_example :
    CreateOutcome methods parsers
      ("city" ∷ [])
      (("city", text "Rome") ∷ [])
      (mentee ∷ [])
      8
      20
      (some 2)
      false
      none
      unique_registry
      (create_record 8 20
        (some 2)
        false
        none
        methods
        parsers
        ("city" ∷ [])
        unique_registry
        (mentee ∷ [])
        (("city", text "Rome") ∷ []))
create_record_lem_example =
    create_record_lem methods parsers ("city" ∷ []) (("city", text "Rome") ∷ []) (mentee ∷ []) 8 20
      (some 2) false none unique_registry
