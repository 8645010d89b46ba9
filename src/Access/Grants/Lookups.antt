-- ===== src/Access/Grants/Lookups.antt =====
-- src/mentorapp/access/lookup_grants.py: who may search a related entity, over the stored grants.
use cbm_mentoring_app.Base.{
  ℕ, String, Bool, false, ◌&&◌, not, Option, none, some, is_some, List, [], ◌∷◌, ◌==◌, string_eq,
  if◌then◌else◌,
}
use cbm_mentoring_app.Base.Exec.{Result, ok, err}
use cbm_mentoring_app.Access.Grants.{
  DataSource, Tables, GrantError, roles_cover_data_source, authorize_data_source, live_source,
}

pub record LookupSourceBinding : Type 0 where
  pub related_entity_type : String
  pub data_source_key : String
  pub deleted_at : Option ℕ

-- `LookupUnboundError`, a denial of the grant boundary, and what `.one()` raises without a row.
pub data LookupError : Type 0 where
  lookup_unbound : String → LookupError
  lookup_denied : GrantError → LookupError
  no_result_found : LookupError

-- `LookupSourceResolver`
abbrev pub Resolver : Type 0
Resolver = String → Option String

-- `StoredLookupSources.lookup_source_key`: the one live binding of the entity.
unfoldable pub stored_lookup_sources : List LookupSourceBinding → Resolver
stored_lookup_sources [] related_entity_type = none
stored_lookup_sources (binding ∷ bindings) related_entity_type =
    let rest = stored_lookup_sources bindings related_entity_type in
    if binding.related_entity_type == related_entity_type && not (is_some binding.deleted_at)
    then some binding.data_source_key
    else rest

abbrev pub covered_if_bound : Tables → List String → Option String → Bool
covered_if_bound t user_roles none = false
covered_if_bound t user_roles (some key) = roles_cover_data_source t key user_roles

unfoldable pub is_lookup_searchable : Resolver → Tables → String → List String → Bool
is_lookup_searchable resolver t related_entity_type user_roles =
    covered_if_bound t user_roles (resolver related_entity_type)

abbrev pub key_if_granted : String → Result GrantError (Unit {0}) → Result LookupError String
key_if_granted key (ok _) = ok key
key_if_granted key (err e) = err (lookup_denied e)

abbrev pub key_if_bound :
    Tables → String → ℕ → List String → Option String → Result LookupError String
key_if_bound t related_entity_type user_id user_roles none =
    err (lookup_unbound related_entity_type)
key_if_bound t related_entity_type user_id user_roles (some key) =
    key_if_granted key (authorize_data_source t key user_id user_roles)

unfoldable pub authorize_lookup_search :
    Resolver → Tables → String → ℕ → List String → Result LookupError String
authorize_lookup_search resolver t related_entity_type user_id user_roles =
    key_if_bound t related_entity_type user_id user_roles (resolver related_entity_type)

pub record LookupScope : Type 0 where
  pub related_entity_type : String
  pub data_source_key : String
  pub user_row_filter : Option String

abbrev pub scope_of : String → String → Option DataSource → Result LookupError LookupScope
scope_of related_entity_type key none = err no_result_found
scope_of related_entity_type key (some source) = ok (record {
  related_entity_type = related_entity_type;
  data_source_key = key;
  user_row_filter = source.user_row_filter;
})

abbrev pub scoped : Tables → String → Result LookupError String → Result LookupError LookupScope
scoped t related_entity_type (err e) = err e
scoped t related_entity_type (ok key) = scope_of related_entity_type key (live_source t.sources key)

unfoldable pub stored_lookup_scope :
    Resolver → Tables → String → ℕ → List String → Result LookupError LookupScope
stored_lookup_scope resolver t related_entity_type user_id user_roles =
    scoped t related_entity_type
      (authorize_lookup_search resolver t related_entity_type user_id user_roles)
