-- ===== src/Api/Creating.antt =====
-- src/mentorapp/api/record_create.py: `CreateFlow`, the create form of one window. A method that
-- changes the form gives the form back; a wire record is a dict of values.
pub mod Flow
pub mod Commits
pub mod Closing
pub mod Histories
mod Examples
use Prim.Native.String
use cbm_mentoring_app.Base.{
  ℕ, String, Bool, true, false, ◌&&◌, not, Option, none, some, is_some, List, [], ◌∷◌, ◌++◌, map,
  keep, any, all, ◌==◌, string_eq, if◌then◌else◌, contains,
}
use cbm_mentoring_app.Base.Dict
use cbm_mentoring_app.Base.Dict.{Dict}
use cbm_mentoring_app.Api.Writes.Rules.{Value, null}
use cbm_mentoring_app.Api.Writes.Changes.{is_absent}
use cbm_mentoring_app.Api.Writes.Merges.{value_of}
use cbm_mentoring_app.Api.Forms.{FieldSettings, normalized_input}

-- A field of `GET /schema/{entity}`, as far as the flow reads it.
pub record FieldPayload : Type 0 where
  pub settings : FieldSettings
  pub default_value : Value
  pub duplicate_match_rules : List String

abbrev pub field_name_of : FieldPayload → String
field_name_of payload = payload.settings.field_name

-- `value is not None`
abbrev pub is_given : Value → Bool
is_given value = not (is_absent (some value))

abbrev seeded : Dict String Value → FieldPayload → Dict String Value
seeded seed payload =
    if is_given payload.default_value
    then Dict.put seed (field_name_of payload) payload.default_value
    else seed

abbrev seed_from : Dict String Value → List FieldPayload → Dict String Value
seed_from seed [] = seed
seed_from seed (payload ∷ fields) = seed_from (seeded seed payload) fields

unfoldable pub create_form_seed : List FieldPayload → Dict String Value
create_form_seed fields = seed_from [] fields

-- A set is a list without repetitions.
abbrev pub add_name : String → List String → List String
add_name name names = if contains names name then names else names ++ name ∷ []

abbrev pub members_of : Dict String (List String) → String → List String
members_of rules rule_name = elim (Dict.get rules rule_name) [ none ↦ [] | some names ↦ names ]

-- `rules.setdefault(rule_name, set()).add(name)`
abbrev add_member : String → Dict String (List String) → String → Dict String (List String)
add_member name rules rule_name =
    Dict.put rules rule_name (add_name name (members_of rules rule_name))

abbrev add_members : String → Dict String (List String) → List String → Dict String (List String)
add_members name rules [] = rules
add_members name rules (rule_name ∷ rule_names) =
    add_members name (add_member name rules rule_name) rule_names

abbrev rules_from : Dict String (List String) → List FieldPayload → Dict String (List String)
rules_from rules [] = rules
rules_from rules (payload ∷ fields) =
    rules_from (add_members (field_name_of payload) rules payload.duplicate_match_rules) fields

unfoldable pub match_rule_fields : List FieldPayload → Dict String (List String)
match_rule_fields fields = rules_from [] fields

abbrev pub union : List String → List String → List String
union names [] = names
union names (name ∷ more) = union (add_name name names) more

abbrev union_all : List String → Dict String (List String) → List String
union_all names [] = names
union_all names ((_, members) ∷ rules) = union_all (union names members) rules

unfoldable pub identity_field_names : List FieldPayload → List String
identity_field_names fields = union_all [] (match_rule_fields fields)

pub record SimilarCandidate : Type 0 where
  pub candidate : Dict String Value
  pub removed : Bool

pub record SimilarRecordsOffer : Type 0 where
  pub entity_type : String
  pub candidates : List SimilarCandidate
  pub blocking : Bool
  pub enforced : Bool

abbrev pub offers_restore : SimilarRecordsOffer → Bool
offers_restore offer = any (λ c. c.removed) offer.candidates

pub record CommitCreate : Type 0 where
  pub entity_type : String
  pub values : Dict String Value
  pub override_duplicates : Bool
  pub override_reason : Option String

-- The fields of `CreateFlow`, but for the settings, which are those of its fields.
pub record CreateFlow : Type 0 where
  pub window_key : String
  pub entity_type : String
  pub fields : List FieldPayload
  pub seed : Dict String Value
  pub values : Dict String Value
  pub rules : Dict String (List String)
  pub last_checked : Option (Dict String Value)
  pub server_rejection : Option SimilarRecordsOffer

unfoldable pub new_flow : String → String → List FieldPayload → CreateFlow
new_flow window_key entity_type fields = record {
  window_key = window_key;
  entity_type = entity_type;
  fields = fields;
  seed = create_form_seed fields;
  values = create_form_seed fields;
  rules = match_rule_fields fields;
  last_checked = none;
  server_rejection = none;
}

abbrev pub settings_of : CreateFlow → List FieldSettings
settings_of flow = map (λ payload. payload.settings) flow.fields

-- `{name: normalized for name, value in values.items() if normalized is not None}`
abbrev pub payload_of : Dict String Value → Dict String Value
payload_of [] = []
payload_of ((name, value) ∷ values) =
    let rest = payload_of values in
    if is_given (normalized_input value) then (name, normalized_input value) ∷ rest else rest
