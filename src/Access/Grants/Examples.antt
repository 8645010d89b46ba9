-- ===== src/Access/Grants/Examples.antt =====
-- src/mentorapp/access/grants.py: a source that the mentors are granted and lose again.
use cbm_mentoring_app.Base.{
  IsIn, inl, ◌↔◌, String, ◌≡◌, ◌≢◌, refl, true, none, some, [], ◌∷◌, contains, string_eq, nat_eq,
  arith,
}
use cbm_mentoring_app.Base.Exec.{ok, err}
use cbm_mentoring_app.Access.Grants.{
  DataSource, Tables, access_denied, live_source, grant_data_source_role, revoke_data_source_role,
  run_stored_data_source, roles_granted,
}
use cbm_mentoring_app.Access.Grants.Histories.{
  grant_data_source_role-revoke_data_source_role, area_of,
}
use cbm_mentoring_app.Access.Grants.Areas.{accessible_area_keys, is_area_accessible, authorize_area}
use cbm_mentoring_app.Access.Grants.Lookups.{
  Resolver, LookupScope, stored_lookup_sources, is_lookup_searchable, stored_lookup_scope,
}
use cbm_mentoring_app.Access.Grants.Launches.{
  Registration, Workprocesses, visible_workprocesses, authorize_workprocess_launch,
}
use cbm_mentoring_app.Access.Grants.Agreement.{shown_iff_allowed}

abbrev mentees : DataSource
mentees = record {
  data_source_id = 2;
  data_source_key = "mentees";
  data_source_sql = "select 1";
  user_row_filter = some "mentorID";
  deleted_at = none;
}

abbrev tables : Tables
tables = record { sources = mentees ∷ []; grants = [] }

grant_data_source_role-revoke_data_source_role_example :
    let t' = (grant_data_source_role tables "mentees" "mentor" none).1 in
    let (was, t'') = revoke_data_source_role t' "mentees" "mentor" none 30 in
    (run_stored_data_source (λ source user_id. user_id) t' "mentees" 5 ("mentor" ∷ []) ≡ ok 5)
    × (was ≡ true)
    × (run_stored_data_source (λ source user_id. user_id) t'' "mentees" 5 ("mentor" ∷ [])
        ≡ err (access_denied "mentees" 5))
    × (accessible_area_keys t' ("mentor" ∷ []) (area_of "mentees" "my-mentees" ∷ [])
        ≡ "my-mentees" ∷ [])
    × (accessible_area_keys t'' ("mentor" ∷ []) (area_of "mentees" "my-mentees" ∷ []) ≡ [])
    × ((other : String)
        → other ≢ "mentor"
        → contains (roles_granted t'' "mentees") other
          ≡ contains (roles_granted tables "mentees") other)
unfolding live_source string_eq
grant_data_source_role-revoke_data_source_role_example =
    grant_data_source_role-revoke_data_source_role "mentees" (λ source user_id. user_id) tables
      "mentor" "my-mentees" none none 30 5 mentees refl (omega arith)

abbrev mentee_registration : Registration
mentee_registration = record {
  workprocess_registration_id = 4;
  workprocess_name = "match mentees";
  deleted_at = none;
}

abbrev workprocesses : Workprocesses
workprocesses = record {
  registrations = mentee_registration ∷ [];
  links = record { workprocess_registration_id = 4; data_source_id = 2; deleted_at = none } ∷ [];
}

abbrev granted_tables : Tables
granted_tables = (grant_data_source_role tables "mentees" "mentor" none).1

abbrev lookup_sources : Resolver
lookup_sources =
    stored_lookup_sources (
      record { related_entity_type = "mentee"; data_source_key = "mentees"; deleted_at = none }
      ∷ [])

shown_iff_allowed_example :
    ((is_area_accessible granted_tables ("mentor" ∷ []) (area_of "mentees" "my-mentees") ≡ true)
      ↔ (authorize_area granted_tables 5 ("mentor" ∷ []) (area_of "mentees" "my-mentees") ≡ ok tt))
    × ((is_lookup_searchable lookup_sources granted_tables "mentee" ("mentor" ∷ []) ≡ true) ↔ (
        (scope : LookupScope) × (stored_lookup_scope lookup_sources granted_tables "mentee" 5
            ("mentor" ∷ [])
          ≡ ok scope)))
    × (IsIn mentee_registration
          (visible_workprocesses granted_tables workprocesses "mentees" ("mentor" ∷ []))
        ↔ (authorize_workprocess_launch granted_tables workprocesses mentee_registration "mentees" 5
              ("mentor" ∷ [])
            ≡ ok tt))
shown_iff_allowed_example =
    shown_iff_allowed granted_tables 5 ("mentor" ∷ []) (area_of "mentees" "my-mentees")
      lookup_sources "mentee" "mentees" workprocesses mentee_registration (inl refl) refl
