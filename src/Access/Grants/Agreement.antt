-- ===== src/Access/Grants/Agreement.antt =====
-- src/mentorapp/access/areas.py, lookup_grants.py and workprocess.py: what a user is shown against
-- what an attempt is let through.
use cbm_mentoring_app.Base.{
  ℕ, String, ◌≡◌, ◌↔◌, ◌⊎◌, inl, inr, ◌∙◌, refl, sym, ap, subst, Bool, true, false, ◌&&◌, Option,
  none, some, List, [], ◌∷◌, map, keep, any, contains, ◌==◌, nat_eq, string_eq, if◌then◌else◌,
  arith, IsIn, Bool-cases, Option-cases, if_cases,
}
use cbm_mentoring_app.Base.Exec.{ok}
use cbm_mentoring_app.Base.Sorting.{not_after}
use cbm_mentoring_app.Access.Grants.{
  DataSource, DataSourceRoleGrant, Tables, is_live_source, is_grant_on, roles_granted,
  roles_cover_data_source, authorize_data_source, live_source,
}
use cbm_mentoring_app.Access.Grants.Areas.{
  AreaDescriptor, covers_or_open, is_area_accessible, authorize_or_open, authorize_area,
}
use cbm_mentoring_app.Access.Grants.Lookups.{
  covered_if_bound, Resolver, is_lookup_searchable, key_if_bound, authorize_lookup_search,
  LookupScope, scoped, stored_lookup_scope,
}
use cbm_mentoring_app.Access.Grants.Launches.{
  Registration, Workprocesses, is_targeted, is_listed, insert_by_name, by_name,
  registrations_for_data_source, visible_workprocesses, authorize_workprocess_launch,
}

module _ (key : String) where
  no_live_source :
      (sources : List DataSource) (q : DataSource → Bool)
      → live_source sources key ≡ none
      → any (λ source. is_live_source key source && q source) sources ≡ false
  unfolding live_source
  no_live_source [] q h = refl
  no_live_source (source ∷ sources) q h = ground (arith, h, no_live_source sources q)

  no_grant_on :
      (sources : List DataSource) (grants : List DataSourceRoleGrant)
      → live_source sources key ≡ none
      → keep (is_grant_on key sources) grants ≡ []
  no_grant_on sources [] h = refl
  no_grant_on sources (grant ∷ grants) h = ground (
    arith,
    no_live_source sources (λ source. source.data_source_id == grant.data_source_id) h,
    no_grant_on sources grants h,
  )

  none_contains : (roles : List String) → any (contains []) roles ≡ false
  none_contains [] = refl
  none_contains (role ∷ roles) = ground (arith, none_contains roles)

  -- A key without a live source is covered by no roles.
  uncovered :
      (t : Tables) (roles : List String)
      → live_source t.sources key ≡ none
      → roles_cover_data_source t key roles ≡ false
  unfolding roles_cover_data_source roles_granted
  uncovered t roles h =
      ap (λ grants. any (contains (map (λ grant. grant.role_name) grants)) roles)
        (no_grant_on t.sources t.grants h)
      ∙ none_contains roles

IsIn-insert_by_name :
    (r x : Registration) (xs : List Registration)
    → IsIn r (insert_by_name x xs) ↔ ((r ≡ x) ⊎ IsIn r xs)
unfolding insert_by_name
IsIn-insert_by_name r x [] = (λ h. h, λ h. h)
IsIn-insert_by_name r x (y ∷ ys) =
    if_cases (λ zs. IsIn r zs ↔ ((r ≡ x) ⊎ IsIn r (y ∷ ys)))
      (not_after x.workprocess_name y.workprocess_name) (x ∷ y ∷ ys) (y ∷ insert_by_name x ys)
      (λ _. (λ h. h, λ h. h))
      (λ _. (
        λ h. elim h [
          | inl e ↦ inr (inl e)
          | inr i ↦ elim ((IsIn-insert_by_name r x ys).0 i) [ inl e ↦ inl e | inr j ↦ inr (inr j) ]
        ],
        λ h. elim h [
          | inl e ↦ inr ((IsIn-insert_by_name r x ys).1 (inl e))
          | inr i ↦ elim i [ inl e ↦ inl e | inr j ↦ inr ((IsIn-insert_by_name r x ys).1 (inr j)) ]
        ],
      ))

IsIn-by_name : (r : Registration) (xs : List Registration) → IsIn r (by_name xs) ↔ IsIn r xs
unfolding by_name
IsIn-by_name r [] = (λ h. h, λ h. h)
IsIn-by_name r (x ∷ xs) =
    let (first, back) = IsIn-insert_by_name r x (by_name xs) in
    (
      λ h. elim (first h) [ inl e ↦ inl e | inr i ↦ inr ((IsIn-by_name r xs).0 i) ],
      λ h. elim h [ inl e ↦ back (inl e) | inr i ↦ back (inr ((IsIn-by_name r xs).1 i)) ],
    )

keep-test :
    (q : Registration → Bool) (r : Registration) (xs : List Registration)
    → IsIn r (keep q xs)
    → q r ≡ true
keep-test q r [] h = absurd h
keep-test q r (x ∷ xs) h =
    if_cases (λ ys. IsIn r ys → q r ≡ true) (q x) (x ∷ keep q xs) (keep q xs)
      (λ on i. elim i [ inl e ↦ ap q e ∙ on | inr j ↦ keep-test q r xs j ])
      (λ _ i. keep-test q r xs i) h

IsIn-keep :
    (q : Registration → Bool) (r : Registration) (xs : List Registration)
    → IsIn r xs
    → q r ≡ true
    → IsIn r (keep q xs)
IsIn-keep q r [] h on = absurd h
IsIn-keep q r (x ∷ xs) h on =
    if_cases (λ ys. IsIn r ys) (q x) (x ∷ keep q xs) (keep q xs)
      (λ _. elim h [ inl e ↦ inl e | inr i ↦ inr (IsIn-keep q r xs i on) ])
      (λ off. elim h [
        | inl e ↦ absurd (ground (arith, off, on, ap q e))
        | inr i ↦ IsIn-keep q r xs i on
      ])

module _ (t : Tables) (user_id : ℕ) (user_roles : List String) where
  area_key_agrees :
      (key : Option String)
      → (covers_or_open t user_roles key ≡ true)
        ↔ (authorize_or_open t user_id user_roles key ≡ ok tt)
  unfolding authorize_data_source
  area_key_agrees none = (λ _. refl, λ _. refl)
  area_key_agrees (some key) = (λ h. ground (arith, h), λ h. ground (arith, h))

  bound_agrees :
      (entity : String) (bound : Option String)
      → (covered_if_bound t user_roles bound ≡ true) ↔ (
          (scope : LookupScope) × (scoped t entity (key_if_bound t entity user_id user_roles bound)
            ≡ ok scope))
  unfolding authorize_data_source
  bound_agrees entity none = (λ h. absurd (ground (arith, h)), λ (scope, h). ground (arith, h))
  bound_agrees entity (some key) = elim (Bool-cases (roles_cover_data_source t key user_roles)) [
    | inl on ↦ elim (Option-cases (live_source t.sources key)) [
      | inl gone ↦ absurd (ground (arith, on, uncovered key t user_roles gone))
      | inr (source, found) ↦ (
        λ _. (
          record {
            related_entity_type = entity;
            data_source_key = key;
            user_row_filter = source.user_row_filter;
          },
          ground (arith, on, found),
        ),
        λ _. on,
      )
    ]
    | inr off ↦ (λ h. absurd (ground (arith, h, off)), λ (scope, h). ground (arith, h, off))
  ]

  launch_agrees :
      (w : Workprocesses) (key : String) (registration : Registration)
      → IsIn registration w.registrations
      → registration.deleted_at ≡ none
      → IsIn registration (visible_workprocesses t w key user_roles)
        ↔ (authorize_workprocess_launch t w registration key user_id user_roles ≡ ok tt)
  unfolding visible_workprocesses authorize_workprocess_launch registrations_for_data_source
      authorize_data_source
  launch_agrees w key registration there live =
      let listed = keep (is_listed t w key) w.registrations in
      let Shown : Bool → Type 0 = λ b. IsIn registration (if b then by_name listed else []) in
      elim (Bool-cases (roles_cover_data_source t key user_roles)) [
        | inl on ↦ (
          λ shown.
              let is_on =
                keep-test (is_listed t w key) registration w.registrations
                  ((IsIn-by_name registration listed).0 (subst Shown on shown)) in
              ground (arith, is_on, on),
          λ allowed.
              let targeted : is_targeted t w key registration ≡ true =
                ground (arith, allowed, on) in
              let is_on : is_listed t w key registration ≡ true = ground (arith, targeted, live) in
              subst Shown (sym on) (
                (IsIn-by_name registration listed).1
                  (IsIn-keep (is_listed t w key) registration w.registrations there is_on)),
        )
        | inr off ↦ (
          λ shown. absurd (subst Shown off shown),
          λ allowed. absurd (ground (arith, allowed, off)),
        )
      ]

  -- What a user is shown is what an attempt is let through, for each surface over the grants: an
  -- area is accessible exactly when it may be opened; a related entity is searchable exactly when
  -- its suggestion request gets a scope, so that the scope's row is there whenever the grant is; and
  -- a live registration of the table is in a source's list of actions exactly when it may be
  -- launched from that source.
  pub shown_iff_allowed :
      (area : AreaDescriptor) (resolver : Resolver) (entity key : String) (w : Workprocesses)
      (registration : Registration)
      → IsIn registration w.registrations
      → registration.deleted_at ≡ none
      → ((is_area_accessible t user_roles area ≡ true)
          ↔ (authorize_area t user_id user_roles area ≡ ok tt))
        × ((is_lookup_searchable resolver t entity user_roles ≡ true) ↔ (
            (scope : LookupScope) × (stored_lookup_scope resolver t entity user_id user_roles
              ≡ ok scope)))
        × (IsIn registration (visible_workprocesses t w key user_roles)
            ↔ (authorize_workprocess_launch t w registration key user_id user_roles ≡ ok tt))
  unfolding is_area_accessible authorize_area is_lookup_searchable stored_lookup_scope
      authorize_lookup_search
  shown_iff_allowed area resolver entity key w registration there live = (
    area_key_agrees area.data_source_key,
    bound_agrees entity (resolver entity),
    launch_agrees w key registration there live,
  )
