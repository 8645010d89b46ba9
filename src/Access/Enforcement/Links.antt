-- ===== src/Access/Enforcement/Links.antt =====
-- src/mentorapp/access/view_enforcement.py: what the facts of a deep link stand on.
use cbm_mentoring_app.Access.Enforcement.Outcomes.{IsLive, absent-IsLive, is_live_view-IsLive}
use cbm_mentoring_app.Base.{
  ℕ, String, ◌≡◌, ◌⊎◌, inl, inr, refl, Bool, true, false, ◌&&◌, not, Option, none, some, is_some,
  List, [], ◌∷◌, any, ◌==◌, nat_eq, string_eq, arith, IsIn, Bool-cases, sym, subst, ap,
}
use cbm_mentoring_app.Base.Exec.{ok, err}
use cbm_mentoring_app.Access.Grants.{
  access_denied, DataSource, roles_cover_data_source, authorize_data_source,
}
use cbm_mentoring_app.Access.Enforcement.{
  GridView, Grid, GridDeepLink, Rows, deep_link_not_found, LinkFacts, named_view_link_facts,
  grid_only_link_facts, live_grid_key, find_link, live_source_key, covered_source, named_or_grid,
  facts_of, load_deep_link_facts,
}
use cbm_mentoring_app.Access.Enforcement.Decisions.{load_live_view_cases}

abbrev pub is_live_grid : ℕ → Grid → Bool
is_live_grid id grid = grid.grid_id == id && not (is_some grid.deleted_at)

abbrev pub is_live_link : String → GridDeepLink → Bool
is_live_link key link = link.deep_link_key == key && not (is_some link.deleted_at)

abbrev pub is_live_data_source : ℕ → DataSource → Bool
is_live_data_source id source = source.data_source_id == id && not (is_some source.deleted_at)

live_grid_key_cases :
    (grids : List Grid) (id : ℕ)
    → (live_grid_key grids id ≡ none) × (any (is_live_grid id) grids ≡ false)
      ⊎ ((grid : Grid) × IsIn grid grids
          × (is_live_grid id grid ≡ true)
          × (live_grid_key grids id ≡ some grid.grid_key))
unfolding live_grid_key
live_grid_key_cases [] id = inl (refl, refl)
live_grid_key_cases (grid ∷ grids) id = elim (Bool-cases (is_live_grid id grid)) [
  | inl here ↦ inr (grid, inl refl, here, ground (arith, here))
  | inr gone ↦ elim (live_grid_key_cases grids id) [
    | inl (e, dead) ↦ inl (ground (arith, gone, e), ground (arith, gone, dead))
    | inr (found, there, live, e) ↦ inr (found, inr there, live, ground (arith, gone, e))
  ]
]

live_source_key_cases :
    (sources : List DataSource) (id : ℕ)
    → (live_source_key sources id ≡ none) × (any (is_live_data_source id) sources ≡ false)
      ⊎ ((source : DataSource) × IsIn source sources
          × (is_live_data_source id source ≡ true)
          × (live_source_key sources id ≡ some source.data_source_key))
unfolding live_source_key
live_source_key_cases [] id = inl (refl, refl)
live_source_key_cases (source ∷ sources) id = elim (Bool-cases (is_live_data_source id source)) [
  | inl here ↦ inr (source, inl refl, here, ground (arith, here))
  | inr gone ↦ elim (live_source_key_cases sources id) [
    | inl (e, dead) ↦ inl (ground (arith, gone, e), ground (arith, gone, dead))
    | inr (found, there, live, e) ↦ inr (found, inr there, live, ground (arith, gone, e))
  ]
]

-- A live link of the key that joins a live grid.
abbrev is_joined : List Grid → String → GridDeepLink → Bool
is_joined grids key link = is_live_link key link && any (is_live_grid link.grid_id) grids

find_link_cases :
    (grids : List Grid) (key : String) (links : List GridDeepLink)
    → (find_link grids key links ≡ none) × (any (is_joined grids key) links ≡ false)
      ⊎ ((link : GridDeepLink) × (grid : Grid) × IsIn link links
          × (is_live_link key link ≡ true)
          × IsIn grid grids
          × (is_live_grid link.grid_id grid ≡ true)
          × (find_link grids key links ≡ some (link, grid.grid_key)))
unfolding find_link
find_link_cases grids key [] = inl (refl, refl)
find_link_cases grids key (link ∷ links) = elim (find_link_cases grids key links) [
  | inl (e, dead) ↦ elim (Bool-cases (is_live_link key link)) [
    | inr gone ↦ inl (ground (arith, gone, e), ground (arith, gone, dead))
    | inl here ↦ elim (live_grid_key_cases grids link.grid_id) [
      | inl (absent, dark) ↦ inl (ground (arith, here, absent, e), ground (arith, dark, dead))
      | inr (grid, there, live, g) ↦
          inr (link, grid, inl refl, here, there, live, ground (arith, here, g))
    ]
  ]
  | inr (found, its_grid, there, live, in_grids, live_grid, e) ↦
      elim (Bool-cases (is_live_link key link)) [
        | inr gone ↦
            inr (found, its_grid, inr there, live, in_grids, live_grid, ground (arith, gone, e))
        | inl here ↦ elim (live_grid_key_cases grids link.grid_id) [
          | inl (absent, _) ↦ inr (
            found,
            its_grid,
            inr there,
            live,
            in_grids,
            live_grid,
            ground (arith, here, absent, e),
          )
          | inr (grid, in_place, live', g) ↦
              inr (link, grid, inl refl, here, in_place, live', ground (arith, here, g))
        ]
      ]
]

abbrev pub IsLiveGrid : ℕ → Grid → Type 0
IsLiveGrid id grid = (grid.grid_id ≡ id) × (grid.deleted_at ≡ none)

abbrev pub IsLiveLink : String → GridDeepLink → Type 0
IsLiveLink key link = (link.deep_link_key ≡ key) × (link.deleted_at ≡ none)

abbrev pub IsLiveSource : ℕ → DataSource → Type 0
IsLiveSource id source = (source.data_source_id ≡ id) × (source.deleted_at ≡ none)

grid_lem : (id : ℕ) (grid : Grid) → is_live_grid id grid ≡ true → IsLiveGrid id grid
grid_lem id grid h = (ground (arith, h), ground (arith, h))

link_lem : (key : String) (link : GridDeepLink) → is_live_link key link ≡ true → IsLiveLink key link
link_lem key link h = (ground (arith, h), ground (arith, h))

source_lem :
    (id : ℕ) (source : DataSource) → is_live_data_source id source ≡ true → IsLiveSource id source
source_lem id source h = (ground (arith, h), ground (arith, h))

no_source :
    (sources : List DataSource) (id : ℕ)
    → any (is_live_data_source id) sources ≡ false
    → ¬ ((source : DataSource) × IsIn source sources × IsLiveSource id source)
no_source [] id h (source, there, live) = absurd there
no_source (x ∷ sources) id h (source, there, live) = elim there [
  | inl same ↦ ground (arith, h, live, ap (is_live_data_source id) same)
  | inr later ↦ no_source sources id (ground (arith, h)) (source, later, live)
]

no_grid :
    (grids : List Grid) (id : ℕ)
    → any (is_live_grid id) grids ≡ false
    → ¬ ((grid : Grid) × IsIn grid grids × IsLiveGrid id grid)
no_grid [] id h (grid, there, live) = absurd there
no_grid (x ∷ grids) id h (grid, there, live) = elim there [
  | inl same ↦ ground (arith, h, live, ap (is_live_grid id) same)
  | inr later ↦ no_grid grids id (ground (arith, h)) (grid, later, live)
]

-- A live link of the key, with its live grid.
abbrev pub Joins : List Grid → List GridDeepLink → String → GridDeepLink → Grid → Type 0
Joins grids links key link grid =
    IsIn link links × IsLiveLink key link × IsIn grid grids × IsLiveGrid link.grid_id grid

no_join :
    (grids : List Grid) (links : List GridDeepLink) (key : String)
    → any (is_joined grids key) links ≡ false
    → ¬ ((link : GridDeepLink) × (grid : Grid) × Joins grids links key link grid)
no_join grids [] key h (link, grid, joins) = absurd joins.0
no_join grids (x ∷ links) key h (link, grid, joins) = elim joins.0 [
  | inl same ↦
      no_grid grids link.grid_id (ground (arith, h, joins.1, ap (is_joined grids key) same))
        (grid, joins.2, joins.3)
  | inr later ↦
      no_join grids links key (ground (arith, h)) (link, grid, (later, joins.1, joins.2, joins.3))
]

module _ (rows : Rows) (user_id : ℕ) (roles : List String) where
  -- Access to the source of a view, as the facts tell it: a live source of the view that the user
  -- may run, or none that is live, or one that the user may not run.
  abbrev pub Access : GridView → Bool → Type 0
  Access view true =
      (source : DataSource) × IsIn source rows.data_sources.sources
      × IsLiveSource view.data_source_id source
      × (authorize_data_source rows.data_sources source.data_source_key user_id roles ≡ ok tt)
  Access view false =
      ¬ (
        (source : DataSource) × IsIn source rows.data_sources.sources
        × IsLiveSource view.data_source_id source)
      ⊎ ((source : DataSource) × IsIn source rows.data_sources.sources
          × IsLiveSource view.data_source_id source
          × (authorize_data_source rows.data_sources source.data_source_key user_id roles
              ≡ err (access_denied source.data_source_key user_id)))

  -- What the facts of a link to `grid_view_id` on a grid stand on.
  abbrev pub StandsOn : Grid → Option ℕ → LinkFacts → Type 0
  StandsOn grid grid_view_id (named_view_link_facts grid_key id owner has_access) =
      (grid_key ≡ grid.grid_key)
      × (grid_view_id ≡ some id)
      × ((view : GridView) × IsIn view rows.views
          × IsLive id view
          × (owner ≡ view.user_id)
          × Access view has_access)
  StandsOn grid none (grid_only_link_facts grid_key) = grid_key ≡ grid.grid_key
  StandsOn grid (some id) (grid_only_link_facts grid_key) =
      (grid_key ≡ grid.grid_key) × ¬ ((view : GridView) × IsIn view rows.views × IsLive id view)

  access_lem :
      (view : GridView)
      → Access view (
          covered_source rows.data_sources roles
            (live_source_key rows.data_sources.sources view.data_source_id))
  unfolding authorize_data_source
  access_lem view =
      let t = rows.data_sources in
      let Told : Option String → Type 0 = λ key. Access view (covered_source t roles key) in
      elim (live_source_key_cases t.sources view.data_source_id) [
        | inl (absent-IsLive, dead) ↦
            subst Told (sym absent-IsLive) (inl (no_source t.sources view.data_source_id dead))
        | inr (source, there, live, e) ↦
            subst Told (sym e)
              (elim (Bool-cases (roles_cover_data_source t source.data_source_key roles)) [
                | inl on ↦
                    subst (Access view) (sym on) (
                      source,
                      there,
                      source_lem view.data_source_id source live,
                      ground (arith, on),
                    )
                | inr off ↦ subst (Access view) (sym off) (
                    inr (
                      source,
                      there,
                      source_lem view.data_source_id source live,
                      ground (arith, off),
                    ))
              ])
      ]

  facts_lem :
      (grid : Grid) (grid_view_id : Option ℕ)
      → StandsOn grid grid_view_id (facts_of rows roles grid.grid_key grid_view_id)
  facts_lem grid none = refl
  facts_lem grid (some id) = elim (load_live_view_cases rows.views id) [
    | inl (gone, e) ↦
        subst
          (λ found.
            StandsOn grid (some id) (named_or_grid rows.data_sources roles grid.grid_key found))
          (sym e) (refl, absent-IsLive rows.views id gone)
    | inr (view, there, live, e) ↦
        let same : view.grid_view_id ≡ id = ground (arith, live) in
        subst
          (λ found.
            StandsOn grid (some id) (named_or_grid rows.data_sources roles grid.grid_key found))
          (sym e)
          (
            refl,
            ap some (sym same),
            (view, there, (refl, (is_live_view-IsLive id view live).1), refl, access_lem view),
          )
  ]

  -- What a shared link tells a recipient, for any rows, key and roles. It is refused exactly when no
  -- link of the key that is not deleted goes to a grid that is not deleted. Else the facts stand on
  -- such a link and grid. They name a view only if the link does and a row of it is not deleted,
  -- whose owner they give; they are of the grid alone when the link names no view or none that is
  -- left. They grant access only if the view has a source that is not deleted and that the recipient
  -- is authorised to run, and deny it only if it has none, or one whose authorisation is refused.
  pub deep_link_facts-StandsOn :
      (key : String)
      → ¬ ((link : GridDeepLink) × (grid : Grid) × Joins rows.grids rows.links key link grid)
          × (load_deep_link_facts rows key roles ≡ err (deep_link_not_found key))
        ⊎ ((link : GridDeepLink) × (grid : Grid) × (facts : LinkFacts) × (load_deep_link_facts rows
                key roles
              ≡ ok facts)
            × Joins rows.grids rows.links key link grid
            × StandsOn grid link.grid_view_id facts)
  unfolding load_deep_link_facts
  deep_link_facts-StandsOn key = elim (find_link_cases rows.grids key rows.links) [
    | inl (e, dead) ↦ inl (no_join rows.grids rows.links key dead, rw e)
    | inr (link, grid, there, live, in_grids, live_grid, e) ↦ inr (
      link,
      grid,
      facts_of rows roles grid.grid_key link.grid_view_id,
      rw e refl,
      (there, link_lem key link live, in_grids, grid_lem link.grid_id grid live_grid),
      facts_lem grid link.grid_view_id,
    )
  ]
