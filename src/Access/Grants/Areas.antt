-- ===== src/Access/Grants/Areas.antt =====
-- src/mentorapp/access/areas.py: the areas that a user may enter, over the stored grants.
use cbm_mentoring_app.Base.{ℕ, String, Bool, true, Option, none, some, List, map, keep}
use cbm_mentoring_app.Base.Exec.{Result, ok}
use cbm_mentoring_app.Access.Grants.{
  Tables, GrantError, roles_cover_data_source, authorize_data_source,
}

pub record AreaDescriptor : Type 0 where
  pub area_key : String
  pub data_source_key : Option String

abbrev pub covers_or_open : Tables → List String → Option String → Bool
covers_or_open t user_roles none = true
covers_or_open t user_roles (some key) = roles_cover_data_source t key user_roles

unfoldable pub is_area_accessible : Tables → List String → AreaDescriptor → Bool
is_area_accessible t user_roles area = covers_or_open t user_roles area.data_source_key

abbrev pub authorize_or_open :
    Tables → ℕ → List String → Option String → Result GrantError (Unit {0})
authorize_or_open t user_id user_roles none = ok tt
authorize_or_open t user_id user_roles (some key) = authorize_data_source t key user_id user_roles

unfoldable pub authorize_area :
    Tables → ℕ → List String → AreaDescriptor → Result GrantError (Unit {0})
authorize_area t user_id user_roles area =
    authorize_or_open t user_id user_roles area.data_source_key

unfoldable pub accessible_area_keys : Tables → List String → List AreaDescriptor → List String
accessible_area_keys t user_roles areas =
    map (λ area. area.area_key) (keep (is_area_accessible t user_roles) areas)
