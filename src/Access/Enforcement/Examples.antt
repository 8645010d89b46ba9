-- ===== src/Access/Enforcement/Examples.antt =====
-- src/mentorapp/access/view_enforcement.py: a saved view with its link, and a deleted view.
use cbm_mentoring_app.Base.{
  ◌≡◌, refl, nat_eq, string_eq, ◌⊎◌, true, false, none, some, [], ◌∷◌, IsIn,
}
use cbm_mentoring_app.Base.Exec.{ok, err}
use cbm_mentoring_app.Access.Grants.{roles_granted, roles_cover_data_source}
use cbm_mentoring_app.Access.Views.{cap_view_promote}
use cbm_mentoring_app.Access.Enforcement.{
  GridView, Grid, GridDeepLink, Rows, deep_link_not_found, LinkFacts, named_view_link_facts,
  load_deep_link_facts, find_link, live_grid_key, live_source_key, load_live_view,
}
use cbm_mentoring_app.Access.Enforcement.Decisions.{OnMissing}
use cbm_mentoring_app.Access.Enforcement.Outcomes.{
  IsLive, Managing, Promoting, Seeing, Authoring, stored_decisions,
}
use cbm_mentoring_app.Access.Enforcement.Links.{Joins, StandsOn, deep_link_facts-StandsOn}

abbrev saved_view : GridView
saved_view = record {
  grid_view_id = 8;
  data_source_id = 2;
  user_id = some 3;
  read_only_flag = false;
  temporary_modified_flag = false;
  deleted_at = none;
}

abbrev rows : Rows
rows = record {
  views = record saved_view { grid_view_id = 7; deleted_at = some 40 } ∷ saved_view ∷ [];
  grids = record { grid_id = 1; grid_key = "mentees"; deleted_at = none } ∷ [];
  links =
      record { deep_link_key = "k-1"; grid_id = 1; grid_view_id = some 8; deleted_at = none } ∷ [];
  capabilities =
      record { access_grant_key = cap_view_promote; user_id = 3; deleted_at = none } ∷ [];
  data_sources = record {
    sources =
        record {
          data_source_id = 2;
          data_source_key = "mentees";
          data_source_sql = "select 1";
          user_row_filter = none;
          deleted_at = none;
        }
        ∷ [];
    grants =
        record {
          data_source_id = 2;
          role_name = "mentor";
          deleted_at = none;
          deleted_by = none;
          created_by = none;
          modified_by = none;
        }
        ∷ [];
  };
}

stored_decisions_example :
    (¬ ((view : GridView) × IsIn view rows.views × IsLive 8 view) × OnMissing rows 8 3 "rename"
      ⊎ ((view : GridView) × IsIn view rows.views
          × IsLive 8 view
          × Managing rows 8 3 "rename" view
          × Promoting rows 8 3 "rename" view
          × Seeing rows 8 3 "rename" view))
    × Authoring rows 8 3 "rename"
stored_decisions_example = stored_decisions rows 8 3 "rename"

linked :
    load_deep_link_facts rows "k-1" ("mentor" ∷ [])
    ≡ ok (named_view_link_facts "mentees" 8 (some 3) true)
unfolding load_deep_link_facts find_link string_eq live_grid_key nat_eq load_live_view
    live_source_key roles_cover_data_source roles_granted
linked = refl

deep_link_facts-StandsOn_example :
    ¬ ((link : GridDeepLink) × (grid : Grid) × Joins rows.grids rows.links "k-1" link grid)
      × (load_deep_link_facts rows "k-1" ("mentor" ∷ []) ≡ err (deep_link_not_found "k-1"))
    ⊎ ((link : GridDeepLink) × (grid : Grid) × (facts : LinkFacts) × (load_deep_link_facts rows
            "k-1"
            ("mentor" ∷ [])
          ≡ ok facts)
        × Joins rows.grids rows.links "k-1" link grid
        × StandsOn rows 3 ("mentor" ∷ []) grid link.grid_view_id facts)
deep_link_facts-StandsOn_example = deep_link_facts-StandsOn rows 3 ("mentor" ∷ []) "k-1"
