-- ===== src/Access/Enforcement/Outcomes.antt =====
-- src/mentorapp/access/view_enforcement.py: the stored decisions by the columns of the rows.
use cbm_mentoring_app.Base.{
  subst, ℕ, String, ◌≡◌, ◌≢◌, ◌⊎◌, inl, inr, refl, ◌∙◌, ap, Bool, true, false, ◌&&◌, not, none,
  some, is_some, List, [], ◌∷◌, any, ◌==◌, nat_eq, string_eq, arith, IsIn, Bool-cases, Option-cases,
}
use cbm_mentoring_app.Base.Exec.{ok, err}
use cbm_mentoring_app.Access.Views.{
  save_in_place, save_as_user, capability_error, view_permission_error, cap_view_promote,
  cap_data_source_author, AccessGrant, is_live_grant, can_apply_temporarily,
}
use cbm_mentoring_app.Access.Views.Rules.{is_granted}
use cbm_mentoring_app.Access.Enforcement.{
  GridView, Rows, refused, view_facts, is_live_view, stored_save_disposition,
  authorize_stored_view_management, authorize_stored_view_promotion,
  authorize_stored_data_source_authoring, stored_view_visible_to,
}
use cbm_mentoring_app.Access.Enforcement.Decisions.{
  is_own_unlocked, authoring, OnLive, OnMissing, decisions_lem,
}

abbrev pub IsLive : ℕ → GridView → Type 0
IsLive id view = (view.grid_view_id ≡ id) × (view.deleted_at ≡ none)

-- The user's own saved view, which no administrator has locked.
abbrev pub IsOwnUnlocked : GridView → ℕ → Type 0
IsOwnUnlocked view user_id =
    (view.user_id ≡ some user_id)
    × (view.read_only_flag ≡ false)
    × (view.temporary_modified_flag ≡ false)

abbrev pub IsSavedUserView : GridView → Type 0
IsSavedUserView view = (view.user_id ≢ none) × (view.temporary_modified_flag ≡ false)

abbrev pub IsVisible : GridView → ℕ → Type 0
IsVisible view user_id = (view.user_id ≡ none) ⊎ (view.user_id ≡ some user_id)

-- A row that was not revoked grants the capability to the user.
abbrev pub Holds : List AccessGrant → ℕ → String → Type 0
Holds grants user_id k =
    (row : AccessGrant) × IsIn row grants
    × (row.user_id ≡ user_id)
    × (row.deleted_at ≡ none)
    × (row.access_grant_key ≡ k)

pub is_live_view-IsLive : (id : ℕ) (view : GridView) → is_live_view id view ≡ true → IsLive id view
is_live_view-IsLive id view h = (ground (arith, h), ground (arith, h))

pub absent-IsLive :
    (views : List GridView) (id : ℕ)
    → any (is_live_view id) views ≡ false
    → ¬ ((view : GridView) × IsIn view views × IsLive id view)
absent-IsLive [] id h (view, there, live) = absurd there
absent-IsLive (x ∷ views) id h (view, there, live) = elim there [
  | inl same ↦ ground (arith, h, ap (is_live_view id) same, live)
  | inr later ↦ absent-IsLive views id (ground (arith, h)) (view, later, live)
]

grants_row : List AccessGrant → ℕ → String → Bool
grants_row grants user_id k =
    any (λ row. is_live_grant user_id row && k == row.access_grant_key) grants

held :
    (grants : List AccessGrant) (user_id : ℕ) (k : String)
    → grants_row grants user_id k ≡ true
    → Holds grants user_id k
unfolding grants_row
held [] user_id k h = absurd (ground (arith, h))
held (x ∷ grants) user_id k h =
    elim (Bool-cases (is_live_grant user_id x && k == x.access_grant_key)) [
      | inl on ↦ (x, inl refl, ground (arith, on), ground (arith, on), ground (arith, on))
      | inr off ↦
          let (row, there, a, b, c) = held grants user_id k (ground (arith, h, off)) in
          (row, inr there, a, b, c)
    ]

not_held :
    (grants : List AccessGrant) (user_id : ℕ) (k : String)
    → grants_row grants user_id k ≡ false
    → ¬ Holds grants user_id k
unfolding grants_row
not_held [] user_id k h (row, there, a, b, c) = absurd there
not_held (x ∷ grants) user_id k h (row, there, a, b, c) = elim there [
  | inl same ↦
      ground (arith, h, a, b, c, ap (λ r. is_live_grant user_id r && k == r.access_grant_key) same)
  | inr later ↦ not_held grants user_id k (ground (arith, h)) (row, later, a, b, c)
]

abbrev pub Granted : List AccessGrant → ℕ → String → Bool → Type 0
Granted grants user_id k true = Holds grants user_id k
Granted grants user_id k false = ¬ Holds grants user_id k

row-Granted :
    (grants : List AccessGrant) (user_id : ℕ) (k : String) (b : Bool)
    → grants_row grants user_id k ≡ b
    → Granted grants user_id k b
row-Granted grants user_id k true h = held grants user_id k h
row-Granted grants user_id k false h = not_held grants user_id k h

promote-Granted :
    (grants : List AccessGrant) (user_id : ℕ)
    → Granted grants user_id cap_view_promote (is_granted grants user_id cap_view_promote)
unfolding grants_row string_eq
promote-Granted grants user_id = row-Granted grants user_id cap_view_promote _ refl

author-Granted :
    (grants : List AccessGrant) (user_id : ℕ)
    → Granted grants user_id cap_data_source_author
        (is_granted grants user_id cap_data_source_author)
unfolding grants_row string_eq
author-Granted grants user_id = row-Granted grants user_id cap_data_source_author _ refl

module _ (rows : Rows) (id user_id : ℕ) (action : String) where
  -- Managing the view, and where a save of it lands.
  abbrev pub Managing : GridView → Type 0
  Managing view =
      (IsOwnUnlocked view user_id
        × (authorize_stored_view_management rows id user_id action ≡ ok view)
        × (stored_save_disposition rows id user_id ≡ ok save_in_place))
      ⊎ (¬ IsOwnUnlocked view user_id
          × (authorize_stored_view_management rows id user_id action
              ≡ err (refused (view_permission_error action view.grid_view_id user_id)))
          × (stored_save_disposition rows id user_id ≡ ok save_as_user))

  abbrev pub Promoting : GridView → Type 0
  Promoting view =
      (Holds rows.capabilities user_id cap_view_promote
        × ((IsSavedUserView view × (authorize_stored_view_promotion rows id user_id ≡ ok view))
            ⊎ (¬ IsSavedUserView view
                × (authorize_stored_view_promotion rows id user_id
                    ≡ err (refused (view_permission_error "promote" view.grid_view_id user_id))))))
      ⊎ (¬ Holds rows.capabilities user_id cap_view_promote
          × (authorize_stored_view_promotion rows id user_id
              ≡ err (refused (capability_error cap_view_promote user_id))))

  abbrev pub Seeing : GridView → Type 0
  Seeing view =
      (IsVisible view user_id
        × (stored_view_visible_to rows id user_id ≡ ok true)
        × (can_apply_temporarily (view_facts view) user_id ≡ true))
      ⊎ (¬ IsVisible view user_id
          × (stored_view_visible_to rows id user_id ≡ ok false)
          × (can_apply_temporarily (view_facts view) user_id ≡ false))

  abbrev pub Authoring : Type 0
  Authoring =
      (Holds rows.capabilities user_id cap_data_source_author
        × (authorize_stored_data_source_authoring rows user_id ≡ ok tt))
      ⊎ (¬ Holds rows.capabilities user_id cap_data_source_author
          × (authorize_stored_data_source_authoring rows user_id
              ≡ err (refused (capability_error cap_data_source_author user_id))))

  managing : (view : GridView) → OnLive rows id user_id action view → Managing view
  managing view (m, p, d, v, a) = elim (Bool-cases (is_own_unlocked view user_id)) [
    | inl on ↦ inl (
      (ground (arith, on), ground (arith, on), ground (arith, on)),
      m ∙ ground (arith, on),
      d ∙ ground (arith, on),
    )
    | inr off ↦ inr (
      λ (owner, unlocked, saved). ground (arith, off, owner, unlocked, saved),
      m ∙ ground (arith, off),
      d ∙ ground (arith, off),
    )
  ]

  promoting : (view : GridView) → OnLive rows id user_id action view → Promoting view
  promoting view (m, p, d, v, a) = go (is_granted rows.capabilities user_id cap_view_promote) refl
    where
      go : (b : Bool) → is_granted rows.capabilities user_id cap_view_promote ≡ b → Promoting view
      go true h = inl (
        subst (Granted rows.capabilities user_id cap_view_promote) h
            (promote-Granted rows.capabilities user_id),
        elim (Bool-cases (is_some view.user_id && not view.temporary_modified_flag)) [
          | inl on ↦ inl ((ground (arith, on), ground (arith, on)), p ∙ rw h (ground (arith, on)))
          | inr off ↦ inr (
            λ (owned, saved). ground (arith, off, owned, saved, Option-cases view.user_id),
            p ∙ rw h (ground (arith, off)),
          )
        ],
      )
      go false h = inr (
        subst (Granted rows.capabilities user_id cap_view_promote) h
            (promote-Granted rows.capabilities user_id),
        p ∙ rw h refl,
      )

  seeing : (view : GridView) → OnLive rows id user_id action view → Seeing view
  seeing view (m, p, d, v, a) = elim (Option-cases view.user_id) [
    | inl system ↦ inl (inl system, v ∙ ground (arith, system), a ∙ ground (arith, system))
    | inr (owner, owned) ↦ elim (Bool-cases (owner == user_id)) [
      | inl on ↦ inl (
        inr (ground (arith, owned, on)),
        v ∙ ground (arith, owned, on),
        a ∙ ground (arith, owned, on),
      )
      | inr off ↦ inr (
        λ seen. ground (arith, owned, off, seen),
        v ∙ ground (arith, owned, off),
        a ∙ ground (arith, owned, off),
      )
    ]
  ]

  authoring_lem :
      authorize_stored_data_source_authoring rows user_id
        ≡ authoring (is_granted rows.capabilities user_id cap_data_source_author) user_id
      → Authoring
  authoring_lem h = go (is_granted rows.capabilities user_id cap_data_source_author) refl
    where
      go : (b : Bool) → is_granted rows.capabilities user_id cap_data_source_author ≡ b → Authoring
      go true g = inl (
        subst (Granted rows.capabilities user_id cap_data_source_author) g
            (author-Granted rows.capabilities user_id),
        h ∙ ap (λ b. authoring b user_id) g,
      )
      go false g = inr (
        subst (Granted rows.capabilities user_id cap_data_source_author) g
            (author-Granted rows.capabilities user_id),
        h ∙ ap (λ b. authoring b user_id) g,
      )

  -- What each stored decision comes to, for any rows, view identifier, user and action. Where no row
  -- has the identifier and is not deleted, all four decisions on the view answer that there is none.
  -- Else they go by one such row, and the authorisers answer that row itself: managing it is for its
  -- owner, unless it is locked or a temporary copy, and a save lands in place in the same cases;
  -- promotion is for who holds the grant, of a saved user view; it is visible, and may be applied
  -- temporarily, when it is a system view or the user's own. Data source authoring is for who holds
  -- the grant of it, by a row that was not revoked.
  pub stored_decisions :
      (¬ ((view : GridView) × IsIn view rows.views × IsLive id view)
          × OnMissing rows id user_id action
        ⊎ ((view : GridView) × IsIn view rows.views
            × IsLive id view
            × Managing view
            × Promoting view
            × Seeing view))
      × Authoring
  stored_decisions =
      let (decided, author) = decisions_lem rows id user_id action in
      (
        elim decided [
          | inl (gone, missing) ↦ inl (absent-IsLive rows.views id gone, missing)
          | inr (view, there, live, on) ↦ inr (
            view,
            there,
            is_live_view-IsLive id view live,
            managing view on,
            promoting view on,
            seeing view on,
          )
        ],
        authoring_lem author,
      )
