-- ===== src/Access/Enforcement.antt =====
-- src/mentorapp/access/view_enforcement.py: the rules of a view over the rows that hold it. A lookup
-- that expects one row takes the first: the identifiers are primary keys, and the table's unique
-- index has no two live links of a key.
pub mod Decisions
pub mod Outcomes
pub mod Links
mod Examples
use cbm_mentoring_app.Base.{
  ℕ, String, Bool, true, false, ◌&&◌, not, Option, none, some, is_some, List, [], ◌∷◌, ◌==◌, nat_eq,
  string_eq, if◌then◌else◌,
}
use cbm_mentoring_app.Base.Exec.{Result, ok, err}
use cbm_mentoring_app.Access.Grants.{DataSource, Tables, roles_cover_data_source}
use cbm_mentoring_app.Access.Views.{
  AccessGrant, stored_capabilities, ViewFacts, Disposition, AccessError, view_visible_to,
  save_disposition, authorize_view_management, authorize_data_source_authoring,
  authorize_view_promotion,
}

-- `gridView`, by what a decision reads of it
pub record GridView : Type 0 where
  pub grid_view_id : ℕ
  pub data_source_id : ℕ
  pub user_id : Option ℕ
  pub read_only_flag : Bool
  pub temporary_modified_flag : Bool
  pub deleted_at : Option ℕ

pub record Grid : Type 0 where
  pub grid_id : ℕ
  pub grid_key : String
  pub deleted_at : Option ℕ

pub record GridDeepLink : Type 0 where
  pub deep_link_key : String
  pub grid_id : ℕ
  pub grid_view_id : Option ℕ
  pub deleted_at : Option ℕ

pub record Rows : Type 0 where
  pub views : List GridView
  pub grids : List Grid
  pub links : List GridDeepLink
  pub capabilities : List AccessGrant
  pub data_sources : Tables

pub data EnforcementError : Type 0 where
  view_not_found : ℕ → EnforcementError
  deep_link_not_found : String → EnforcementError
  refused : AccessError → EnforcementError

unfoldable pub view_facts : GridView → ViewFacts
view_facts view = record {
  view_id = view.grid_view_id;
  owner_id = view.user_id;
  read_only = view.read_only_flag;
  temporary_modified = view.temporary_modified_flag;
}

abbrev pub is_live_view : ℕ → GridView → Bool
is_live_view id view = view.grid_view_id == id && not (is_some view.deleted_at)

unfoldable pub load_live_view : List GridView → ℕ → Result EnforcementError GridView
load_live_view [] id = err (view_not_found id)
load_live_view (view ∷ views) id =
    let rest = load_live_view views id in if is_live_view id view then ok view else rest

-- A decision on the facts of a view that was found.
abbrev pub on_facts {ℓ} :
    {A : Type ℓ} → (ViewFacts → A) → Result EnforcementError GridView → Result EnforcementError A
on_facts decide (err e) = err e
on_facts decide (ok view) = ok (decide (view_facts view))

-- The row that was authorised, or the refusal.
abbrev pub then_row {ℓ} : {A B : Type ℓ} → A → Result AccessError B → Result EnforcementError A
then_row row (ok _) = ok row
then_row row (err e) = err (refused e)

abbrev pub authorized :
    (ViewFacts → Result AccessError (Unit {0}))
    → Result EnforcementError GridView
    → Result EnforcementError GridView
authorized authorize (err e) = err e
authorized authorize (ok view) = then_row view (authorize (view_facts view))

module _ (rows : Rows) where
  unfoldable pub stored_save_disposition : ℕ → ℕ → Result EnforcementError Disposition
  stored_save_disposition id user_id =
      on_facts (λ facts. save_disposition facts user_id) (load_live_view rows.views id)

  unfoldable pub authorize_stored_view_management :
      ℕ → ℕ → String → Result EnforcementError GridView
  authorize_stored_view_management id user_id action =
      authorized (λ facts. authorize_view_management facts user_id action)
        (load_live_view rows.views id)

  unfoldable pub authorize_stored_view_promotion : ℕ → ℕ → Result EnforcementError GridView
  authorize_stored_view_promotion id user_id =
      authorized
        (λ facts. authorize_view_promotion stored_capabilities facts rows.capabilities user_id)
        (load_live_view rows.views id)

  unfoldable pub authorize_stored_data_source_authoring : ℕ → Result EnforcementError (Unit {0})
  authorize_stored_data_source_authoring user_id =
      then_row tt (authorize_data_source_authoring stored_capabilities rows.capabilities user_id)

  unfoldable pub stored_view_visible_to : ℕ → ℕ → Result EnforcementError Bool
  stored_view_visible_to id user_id =
      on_facts (λ facts. view_visible_to facts user_id) (load_live_view rows.views id)

pub data LinkFacts : Type 0 where
  named_view_link_facts : String → ℕ → Option ℕ → Bool → LinkFacts
  grid_only_link_facts : String → LinkFacts

unfoldable pub live_grid_key : List Grid → ℕ → Option String
live_grid_key [] id = none
live_grid_key (grid ∷ grids) id =
    let rest = live_grid_key grids id in
    if grid.grid_id == id && not (is_some grid.deleted_at) then some grid.grid_key else rest

abbrev pub joined :
    GridDeepLink → Option String → Option (GridDeepLink × String) → Option (GridDeepLink × String)
joined link none rest = rest
joined link (some grid_key) rest = some (link, grid_key)

-- The join of a live link of the key with its live grid.
unfoldable pub find_link : List Grid → String → List GridDeepLink → Option (GridDeepLink × String)
find_link grids key [] = none
find_link grids key (link ∷ links) =
    let rest = find_link grids key links in
    if link.deep_link_key == key && not (is_some link.deleted_at)
    then joined link (live_grid_key grids link.grid_id) rest
    else rest

unfoldable pub live_source_key : List DataSource → ℕ → Option String
live_source_key [] id = none
live_source_key (source ∷ sources) id =
    let rest = live_source_key sources id in
    if source.data_source_id == id && not (is_some source.deleted_at)
    then some source.data_source_key
    else rest

abbrev pub covered_source : Tables → List String → Option String → Bool
covered_source t roles none = false
covered_source t roles (some key) = roles_cover_data_source t key roles

abbrev pub named_or_grid :
    Tables → List String → String → Result EnforcementError GridView → LinkFacts
named_or_grid t roles grid_key (err e) = grid_only_link_facts grid_key
named_or_grid t roles grid_key (ok view) =
    named_view_link_facts grid_key view.grid_view_id view.user_id
      (covered_source t roles (live_source_key t.sources view.data_source_id))

abbrev pub facts_of : Rows → List String → String → Option ℕ → LinkFacts
facts_of rows roles grid_key none = grid_only_link_facts grid_key
facts_of rows roles grid_key (some id) =
    named_or_grid rows.data_sources roles grid_key (load_live_view rows.views id)

abbrev pub link_facts :
    Rows → String → List String → Option (GridDeepLink × String) → Result EnforcementError LinkFacts
link_facts rows key roles none = err (deep_link_not_found key)
link_facts rows key roles (some (link, grid_key)) =
    ok (facts_of rows roles grid_key link.grid_view_id)

unfoldable pub load_deep_link_facts :
    Rows → String → List String → Result EnforcementError LinkFacts
load_deep_link_facts rows key roles =
    link_facts rows key roles (find_link rows.grids key rows.links)
