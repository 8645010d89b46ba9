-- ===== src/Api/Writes/Matching.antt =====
-- src/mentorapp/api/write_engine.py: `_match_rules` and `find_similar_records`, with
-- `normalize_for_match` of src/mentorapp/automation/normalization.py. Python's `str.isdigit` and
-- `str.lower` and SQL's `lower(trim(...))` are parameters.
use Prim.Native.Char.{Char, code}
use Prim.Native.String
use cbm_mentoring_app.Base.{
  ℕ, String, Bool, true, false, ◌&&◌, ◌||◌, not, Option, none, some, is_some, or_else, List, [],
  ◌∷◌, ◌++◌, map, keep, all, contains, ◌==◌, nat_eq, string_eq, if◌then◌else◌,
}
use cbm_mentoring_app.Base.Dict
use cbm_mentoring_app.Base.Dict.{Dict}
use cbm_mentoring_app.Base.Text.{is_space}
use cbm_mentoring_app.Base.Sorting.{sorted_names}
use cbm_mentoring_app.Base.Exec.{Result, ok, err}
use cbm_mentoring_app.Api.Writes.Rules.{Value, text, value_eq, FieldType, SchemaRegistry, Parsers}
use cbm_mentoring_app.Api.Writes.Changes.{Registry, is_absent}
use cbm_mentoring_app.Api.Writes.Merges.{value_of}
use cbm_mentoring_app.Api.Writes.Updates.{EntityRecord}

pub record TextMethods : Type 0 where
  pub is_digit : ℕ → Bool
  pub lower : String → String
  -- what `lower(trim(column))` is in SQL: `none` for a null column
  pub sql_lower_trim : Value → Option String

abbrev strip_left : String → String
strip_left Prim.Native.String.[] = ""
strip_left (Prim.Native.String.◌∷◌ c s) =
    let rest = strip_left s in if is_space (code c) then rest else Prim.Native.String.◌∷◌ c s

abbrev put_before : Char → String → String
put_before c Prim.Native.String.[] = if is_space (code c) then "" else Prim.Native.String.◌∷◌ c ""
put_before c s = Prim.Native.String.◌∷◌ c s

abbrev strip_right : String → String
strip_right Prim.Native.String.[] = ""
strip_right (Prim.Native.String.◌∷◌ c s) = put_before c (strip_right s)

abbrev is_phone : FieldType → Bool
is_phone FieldType.phone = true
is_phone _ = false

module _ (methods : TextMethods) (p : Parsers) where
  unfoldable pub normalize_phone : String → String
  normalize_phone Prim.Native.String.[] = ""
  normalize_phone (Prim.Native.String.◌∷◌ c s) =
      let rest = normalize_phone s in
      if methods.is_digit (code c) then Prim.Native.String.◌∷◌ c rest else rest

  unfoldable pub normalize_for_match : FieldType → Value → String
  normalize_for_match field_type value =
      if is_phone field_type
      then normalize_phone (p.str value)
      else methods.lower (strip_right (strip_left (p.str value)))

-- `NULL = needle` holds of nothing.
abbrev pub is_match : Option String → String → Bool
is_match none needle = false
is_match (some s) needle = s == needle

-- `rules.setdefault(name, []).append(row)`
abbrev pub with_rule :
    Dict String (List SchemaRegistry) → String → SchemaRegistry → Dict String (List SchemaRegistry)
with_rule rules name row = Dict.put rules name (or_else (Dict.get rules name) [] ++ row ∷ [])

abbrev pub with_rules :
    Dict String (List SchemaRegistry)
    → List String
    → SchemaRegistry
    → Dict String (List SchemaRegistry)
with_rules rules [] row = rules
with_rules rules (name ∷ names) row = with_rules (with_rule rules name row) names row

unfoldable pub match_rules :
    Registry → Dict String (List SchemaRegistry) → Dict String (List SchemaRegistry)
match_rules [] rules = rules
match_rules ((_, row) ∷ registry) rules =
    match_rules registry (with_rules rules row.duplicate_match_rules row)

-- `sorted(rules.items())`: no two have the same name.
abbrev pub sorted_rules : Registry → Dict String (List SchemaRegistry)
sorted_rules registry =
    let rules = match_rules registry [] in
    map (λ name. (name, or_else (Dict.get rules name) [])) (sorted_names (Dict.keys rules))

-- The `RuntimeError` of a rule whose phone field has no shadow column, and the `KeyError` of one
-- whose field is no column at all.
pub data MatchError : Type 0 where
  needs_shadow : String → MatchError
  no_column : String → MatchError

pub record Similar : Type 0 where
  pub candidates : Dict ℕ EntityRecord
  pub matched_rule_names : List String

abbrev shadow_name : String → String
shadow_name name = Prim.Native.String.◌++◌ name "Normalized"

abbrev pub put_all : Dict ℕ EntityRecord → List EntityRecord → Dict ℕ EntityRecord
put_all found [] = found
put_all found (r ∷ rs) = put_all (Dict.put found r.record_id r) rs

abbrev pub named_if_any : String → List EntityRecord → List String
named_if_any name [] = []
named_if_any name (_ ∷ _) = name ∷ []

module _ (methods : TextMethods) (p : Parsers) (columns : List String)
    (values : Dict String Value) where
  -- A rule fires only when the values give every one of its fields.
  abbrev pub is_given : List SchemaRegistry → Bool
  is_given = all (λ row. not (is_absent (Dict.get values row.field_name)))

  abbrev row_problem : String → SchemaRegistry → Option MatchError
  row_problem rule_name row =
      if contains columns (shadow_name row.field_name)
      then none
      else if is_phone row.field_type
      then some (needs_shadow rule_name)
      else if contains columns row.field_name
      then none
      else some (no_column row.field_name)

  abbrev first_some : Option MatchError → Option MatchError → Option MatchError
  first_some none problem = problem
  first_some (some e) problem = some e

  -- What building the query of a rule raises.
  abbrev pub rule_problem : String → List SchemaRegistry → Option MatchError
  rule_problem rule_name [] = none
  rule_problem rule_name (row ∷ rows) =
      first_some (row_problem rule_name row) (rule_problem rule_name rows)

  abbrev needle : SchemaRegistry → String
  needle row = normalize_for_match methods p row.field_type (value_of values row.field_name)

  -- The predicate of one field: the shadow column where there is one.
  abbrev pub field_matches : EntityRecord → SchemaRegistry → Bool
  field_matches r row =
      if contains columns (shadow_name row.field_name)
      then value_of r.columns (shadow_name row.field_name) == text (needle row)
      else is_match (methods.sql_lower_trim (value_of r.columns row.field_name)) (needle row)

  abbrev pub rule_matches : Bool → List SchemaRegistry → EntityRecord → Bool
  rule_matches include_deleted rows r =
      (include_deleted || not (is_some r.deleted_at)) && all (field_matches r) rows

  module _ (table : List EntityRecord) (include_deleted : Bool) where
    abbrev pub matching : List SchemaRegistry → List EntityRecord
    matching rows = keep (rule_matches include_deleted rows) table

    abbrev pub noted : Similar → String → List EntityRecord → Similar
    noted similar name found = record {
      candidates = put_all similar.candidates found;
      matched_rule_names = similar.matched_rule_names ++ named_if_any name found;
    }

    abbrev pub unless_problem :
        Option MatchError → Result MatchError Similar → Result MatchError Similar
    unless_problem none found = found
    unless_problem (some e) found = err e

    unfoldable pub scan_rules :
        Dict String (List SchemaRegistry) → Similar → Result MatchError Similar
    scan_rules [] similar = ok similar
    scan_rules ((name, rows) ∷ rules) similar =
        let rest = scan_rules rules (noted similar name (matching rows)) in
        let skipped = scan_rules rules similar in
        if is_given rows then unless_problem (rule_problem name rows) rest else skipped

    unfoldable pub find_similar_records : Registry → Result MatchError Similar
    find_similar_records registry =
        scan_rules (sorted_rules registry) (record { candidates = []; matched_rule_names = [] })
