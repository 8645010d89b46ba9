-- ===== src/Access/Enforcement/Decisions.antt =====
-- src/mentorapp/access/view_enforcement.py: what each stored decision comes to.
use cbm_mentoring_app.Base.{
  ℕ, String, ◌≡◌, ◌⊎◌, inl, inr, refl, Bool, true, false, ◌&&◌, ◌||◌, not, is_some, List, [], ◌∷◌,
  any, nat_eq, string_eq, if◌then◌else◌, arith, IsIn, Bool-cases, ap, ◌∙◌,
}
use cbm_mentoring_app.Base.Exec.{Result, ok, err}
use cbm_mentoring_app.Access.Views.{
  is_owned_by, save_in_place, save_as_user, capability_error, view_permission_error,
  cap_view_promote, cap_data_source_author, stored_capabilities, view_visible_to, can_manage_view,
  save_disposition, can_apply_temporarily, authorize_view_management,
  authorize_data_source_authoring, authorize_view_promotion, authorize_capability, holds_capability,
  then_promote, AccessGrant,
}
use cbm_mentoring_app.Access.Views.Rules.{is_granted, holds_granted}
use cbm_mentoring_app.Access.Enforcement.{
  GridView, Rows, EnforcementError, view_not_found, refused, view_facts, is_live_view,
  load_live_view, then_row, stored_save_disposition, authorize_stored_view_management,
  authorize_stored_view_promotion, authorize_stored_data_source_authoring, stored_view_visible_to,
}

pub load_live_view_cases :
    (views : List GridView) (id : ℕ)
    → (any (is_live_view id) views ≡ false) × (load_live_view views id ≡ err (view_not_found id))
      ⊎ ((view : GridView) × IsIn view views
          × (is_live_view id view ≡ true)
          × (load_live_view views id ≡ ok view))
unfolding load_live_view
load_live_view_cases [] id = inl (refl, refl)
load_live_view_cases (view ∷ views) id = elim (Bool-cases (is_live_view id view)) [
  | inl here ↦ inr (view, inl refl, here, ground (arith, here))
  | inr gone ↦ elim (load_live_view_cases views id) [
    | inl (absent-IsLive, e) ↦ inl (ground (arith, gone, absent-IsLive), ground (arith, gone, e))
    | inr (found, there, live, e) ↦ inr (found, inr there, live, ground (arith, gone, e))
  ]
]

-- A saved view of this user that no administrator has locked.
abbrev pub is_own_unlocked : GridView → ℕ → Bool
is_own_unlocked view user_id =
    is_owned_by view.user_id user_id && not view.read_only_flag && not view.temporary_modified_flag

abbrev pub managed : GridView → ℕ → String → Result EnforcementError GridView
managed view user_id action =
    if is_own_unlocked view user_id
    then ok view
    else err (refused (view_permission_error action view.grid_view_id user_id))

abbrev pub promoted : List AccessGrant → GridView → ℕ → Result EnforcementError GridView
promoted grants view user_id =
    if is_granted grants user_id cap_view_promote
    then (if is_some view.user_id && not view.temporary_modified_flag
        then ok view
        else err (refused (view_permission_error "promote" view.grid_view_id user_id)))
    else err (refused (capability_error cap_view_promote user_id))

managed_lem :
    (view : GridView) (user_id : ℕ) (action : String)
    → then_row view (authorize_view_management (view_facts view) user_id action)
      ≡ managed view user_id action
unfolding view_facts authorize_view_management can_manage_view
managed_lem view user_id action = ground arith

promoted_if :
    (view : GridView) (user_id : ℕ) (held : Bool)
    → then_row view (
        then_promote stored_capabilities
          (view_facts view)
          user_id
          (if held then ok tt else err (capability_error cap_view_promote user_id)))
      ≡ (if held
          then (if is_some view.user_id && not view.temporary_modified_flag
              then ok view
              else err (refused (view_permission_error "promote" view.grid_view_id user_id)))
          else err (refused (capability_error cap_view_promote user_id)))
unfolding view_facts
promoted_if view user_id true = ground arith
promoted_if view user_id false = refl

promoted_lem :
    (grants : List AccessGrant) (view : GridView) (user_id : ℕ)
    → then_row view (authorize_view_promotion stored_capabilities (view_facts view) grants user_id)
      ≡ promoted grants view user_id
unfolding authorize_view_promotion authorize_capability
promoted_lem grants view user_id =
    promoted_if view user_id (holds_capability stored_capabilities grants user_id cap_view_promote)
    ∙ ap
        (λ held.
          if held
          then (if is_some view.user_id && not view.temporary_modified_flag
              then ok view
              else err (refused (view_permission_error "promote" view.grid_view_id user_id)))
          else err (refused (capability_error cap_view_promote user_id)))
        (holds_granted grants user_id cap_view_promote)

abbrev pub authoring : Bool → ℕ → Result EnforcementError (Unit {0})
authoring held user_id =
    if held then ok tt else err (refused (capability_error cap_data_source_author user_id))

authoring_if :
    (rows : Rows) (user_id : ℕ) (held : Bool)
    → holds_capability stored_capabilities rows.capabilities user_id cap_data_source_author ≡ held
    → authorize_stored_data_source_authoring rows user_id ≡ authoring held user_id
unfolding authorize_stored_data_source_authoring authorize_data_source_authoring
    authorize_capability
authoring_if rows user_id true h = rw h
authoring_if rows user_id false h = rw h

-- What the stored decisions on `id` are, when `view` is its live row.
abbrev pub OnLive : Rows → ℕ → ℕ → String → GridView → Type 0
OnLive rows id user_id action view =
    (authorize_stored_view_management rows id user_id action ≡ managed view user_id action)
    × (authorize_stored_view_promotion rows id user_id ≡ promoted rows.capabilities view user_id)
    × (stored_save_disposition rows id user_id
        ≡ ok (if is_own_unlocked view user_id then save_in_place else save_as_user))
    × (stored_view_visible_to rows id user_id
        ≡ ok (not (is_some view.user_id) || is_owned_by view.user_id user_id))
    × (can_apply_temporarily (view_facts view) user_id
        ≡ (not (is_some view.user_id) || is_owned_by view.user_id user_id))

-- The stored decisions when no row of `id` is live.
abbrev pub OnMissing : Rows → ℕ → ℕ → String → Type 0
OnMissing rows id user_id action =
    (authorize_stored_view_management rows id user_id action ≡ err (view_not_found id))
    × (authorize_stored_view_promotion rows id user_id ≡ err (view_not_found id))
    × (stored_save_disposition rows id user_id ≡ err (view_not_found id))
    × (stored_view_visible_to rows id user_id ≡ err (view_not_found id))

module _ (rows : Rows) (id user_id : ℕ) (action : String) where
  missing_lem :
      load_live_view rows.views id ≡ err (view_not_found id) → OnMissing rows id user_id action
  unfolding authorize_stored_view_management authorize_stored_view_promotion stored_save_disposition
      stored_view_visible_to
  missing_lem e = (rw e, rw e, rw e, rw e)

  live_lem :
      (view : GridView)
      → load_live_view rows.views id ≡ ok view
      → OnLive rows id user_id action view
  unfolding authorize_stored_view_management authorize_stored_view_promotion stored_save_disposition
      stored_view_visible_to save_disposition view_visible_to can_apply_temporarily view_facts
  live_lem view e = (
    rw e (managed_lem view user_id action),
    rw e (promoted_lem rows.capabilities view user_id),
    rw e refl,
    rw e refl,
    refl,
  )

  pub decisions_lem :
      ((any (is_live_view id) rows.views ≡ false) × OnMissing rows id user_id action
        ⊎ ((view : GridView) × IsIn view rows.views
            × (is_live_view id view ≡ true)
            × OnLive rows id user_id action view))
      × (authorize_stored_data_source_authoring rows user_id
          ≡ authoring (is_granted rows.capabilities user_id cap_data_source_author) user_id)
  decisions_lem = (
    elim (load_live_view_cases rows.views id) [
      | inl (gone, e) ↦ inl (gone, missing_lem e)
      | inr (view, there, live, e) ↦ inr (view, there, live, live_lem view e)
    ],
    authoring_if rows user_id (is_granted rows.capabilities user_id cap_data_source_author)
        (holds_granted rows.capabilities user_id cap_data_source_author),
  )
