-- ===== src/Api/Writes/Changes.antt =====
-- src/mentorapp/api/write_engine.py: `_validate_changes`, the payload of a write against the registry.
use cbm_mentoring_app.Base.{
  String, Bool, true, false, ◌&&◌, Option, none, some, List, [], ◌∷◌, ◌++◌, contains, string_eq,
  if◌then◌else◌,
}
use cbm_mentoring_app.Base.Dict
use cbm_mentoring_app.Base.Dict.{Dict}
use cbm_mentoring_app.Api.EditSafety.Conflicts.{structural_fields}
use cbm_mentoring_app.Api.Writes.Rules.{
  Value, null, SchemaRegistry, ApiError, field_error, Parsers, validate_value, rule_of,
  native_builtin_value, read_only_field, unknown_field, type_mismatch, required_field,
}

abbrev pub Registry : Type 0
Registry = Dict String SchemaRegistry

-- `(builtin, custom, errors)`
pub record Buckets : Type 0 where
  pub builtin : Dict String Value
  pub custom : Dict String Value
  pub errors : List ApiError

-- Where one entry of the payload goes.
pub data Verdict : Type 0 where
  refused : ApiError → Verdict
  is_custom : Value → Verdict
  is_builtin : Value → Verdict

abbrev pub empty_buckets : Buckets
empty_buckets = record { builtin = []; custom = []; errors = [] }

abbrev pub place : Buckets → String → Verdict → Buckets
place b name (refused e) = record b { errors = b.errors ++ e ∷ [] }
place b name (is_custom v) = record b { custom = Dict.put b.custom name v }
place b name (is_builtin v) = record b { builtin = Dict.put b.builtin name v }

abbrev pub native_verdict : String → Option Value → Verdict
native_verdict name none = refused (field_error name type_mismatch)
native_verdict name (some v) = is_builtin v

-- `changes.get(name) is None`
abbrev pub is_absent : Option Value → Bool
is_absent none = true
is_absent (some null) = true
is_absent (some _) = false

module _ (p : Parsers) where
  abbrev pub valid_verdict : SchemaRegistry → Value → Option ApiError → Verdict
  valid_verdict row value (some e) = refused e
  valid_verdict row value none =
      if row.user_defined_flag
      then is_custom value
      else native_verdict row.field_name (native_builtin_value p row value)

  abbrev pub row_verdict : String → Option SchemaRegistry → Value → Verdict
  row_verdict name none value = refused (field_error name unknown_field)
  row_verdict name (some row) value = valid_verdict row value (validate_value p (rule_of row) value)

  unfoldable pub verdict : Registry → String → Value → Verdict
  verdict registry name value =
      if contains structural_fields name
      then refused (field_error name read_only_field)
      else row_verdict name (Dict.get registry name) value

  unfoldable pub validate_all : Registry → Buckets → Dict String Value → Buckets
  validate_all registry b [] = b
  validate_all registry b ((name, value) ∷ changes) =
      validate_all registry (place b name (verdict registry name value)) changes

  -- The rows that a create misses.
  unfoldable pub required_errors : Registry → Dict String Value → List ApiError
  required_errors [] changes = []
  required_errors ((name, row) ∷ registry) changes =
      let rest = required_errors registry changes in
      if row.required_flag && is_absent (Dict.get changes name)
      then field_error name required_field ∷ rest
      else rest

  unfoldable pub validate_changes : Registry → Dict String Value → Bool → Buckets
  validate_changes registry changes creating =
      let b = validate_all registry empty_buckets changes in
      if creating then record b { errors = b.errors ++ required_errors registry changes } else b
