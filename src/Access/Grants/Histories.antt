-- ===== src/Access/Grants/Histories.antt =====
-- src/mentorapp/access/grants.py and areas.py: a grant, its revocation, and the runs in between.
use cbm_mentoring_app.Base.{
  ℕ, ◌≤◌, String, ◌≡◌, ◌≢◌, ◌∙◌, refl, sym, ap, Bool, true, false, ◌&&◌, ◌||◌, Option, some,
  is_some, List, [], ◌∷◌, ◌++◌, map, keep, any, contains, count_of, ◌==◌, nat_eq, string_eq,
  if◌then◌else◌, arith, Bool-cases, Option-cases, inl, inr, ◌⊎◌, subst, count_of-append,
}
use cbm_mentoring_app.Base.Exec.{ok, err}
use cbm_mentoring_app.Access.Grants.{
  DataSource, DataSourceRoleGrant, Tables, access_denied, AdminSqlSource, is_live_source,
  is_grant_on, roles_granted, roles_cover_data_source, authorize_data_source, live_source,
  is_live_grant, live_grant, new_grant, grant_on, grant_found, grant_data_source_role, revoke_first,
  revoke_data_source_role, source_of, loaded, load_stored_source, run_loaded, run_authorized,
  run_stored_data_source,
}
use cbm_mentoring_app.Access.Grants.Areas.{AreaDescriptor, is_area_accessible, accessible_area_keys}

module _ (key : String) where
  -- The role has a live grant on a live source of the key.
  abbrev pub has_grant : Tables → String → Bool
  has_grant t role = any (is_live_grant key role t.sources) t.grants

  contains-names :
      (sources : List DataSource) (grants : List DataSourceRoleGrant) (role : String)
      → contains (map (λ grant. grant.role_name) (keep (is_grant_on key sources) grants)) role
        ≡ any (is_live_grant key role sources) grants
  contains-names sources [] role = refl
  contains-names sources (grant ∷ grants) role = ground (arith, contains-names sources grants role)

  some-live_grant :
      (sources : List DataSource) (grants : List DataSourceRoleGrant) (role : String)
      → is_some (live_grant sources key role grants) ≡ any (is_live_grant key role sources) grants
  unfolding live_grant
  some-live_grant sources [] role = refl
  some-live_grant sources (grant ∷ grants) role =
      ground (arith, some-live_grant sources grants role)

  live_source-any :
      (sources : List DataSource) (source : DataSource)
      → live_source sources key ≡ some source
      → any (λ s. is_live_source key s && s.data_source_id == source.data_source_id) sources ≡ true
  unfolding live_source
  live_source-any [] source h = ground (arith, h)
  live_source-any (s ∷ sources) source h = ground (arith, h, live_source-any sources source)

  any-append :
      (t : DataSourceRoleGrant → Bool) (xs ys : List DataSourceRoleGrant)
      → any t (xs ++ ys) ≡ (any t xs || any t ys)
  any-append t [] ys = refl
  any-append t (x ∷ xs) ys = ground (arith, any-append t xs ys)

  none-count_of :
      (t : DataSourceRoleGrant → Bool) (xs : List DataSourceRoleGrant)
      → any t xs ≡ false
      → count_of t xs ≡ 0
  none-count_of t [] h = refl
  none-count_of t (x ∷ xs) h = ground (arith, h, none-count_of t xs)

  count_of-none :
      (t : DataSourceRoleGrant → Bool) (xs : List DataSourceRoleGrant)
      → count_of t xs ≡ 0
      → any t xs ≡ false
  count_of-none t [] h = refl
  count_of-none t (x ∷ xs) h = ground (arith, h, count_of-none t xs)

  -- With one live grant at most, its soft delete leaves none.
  revoke_first-none :
      (sources : List DataSource) (role : String) (by : Option ℕ) (now : ℕ)
      (grants : List DataSourceRoleGrant)
      → count_of (is_live_grant key role sources) grants ≤ 1
      → any (is_live_grant key role sources) (revoke_first sources key role by now grants) ≡ false
  unfolding revoke_first
  revoke_first-none sources role by now [] h = refl
  revoke_first-none sources role by now (grant ∷ grants) h =
      elim (Bool-cases (is_live_grant key role sources grant)) [
        | inl live ↦
            let gone : count_of (is_live_grant key role sources) grants ≡ 0 =
              ground (arith, h, live) in
            ground (arith, live, count_of-none (is_live_grant key role sources) grants gone)
        | inr dead ↦
            let few : count_of (is_live_grant key role sources) grants ≤ 1 =
              ground (arith, h, dead) in
            ground (arith, dead, revoke_first-none sources role by now grants few)
      ]

  revoke_first-other :
      (sources : List DataSource) (role other : String) (by : Option ℕ) (now : ℕ)
      (grants : List DataSourceRoleGrant)
      → other ≢ role
      → any (is_live_grant key other sources) (revoke_first sources key role by now grants)
        ≡ any (is_live_grant key other sources) grants
  unfolding revoke_first
  revoke_first-other sources role other by now [] h = refl
  revoke_first-other sources role other by now (grant ∷ grants) h =
      ground (arith, h, revoke_first-other sources role other by now grants h)

  module _ (t : Tables) (role : String) (by : Option ℕ) (source : DataSource)
      (found : live_source t.sources key ≡ some source) where
    abbrev granted : Tables
    granted = (grant_data_source_role t key role by).1

    -- A grant adds the one live row, or finds it.
    granted_cases :
        ((granted ≡ t) × (has_grant t role ≡ true))
        ⊎ ((granted
              ≡ record t { grants = t.grants ++ new_grant source.data_source_id role by ∷ [] })
            × (has_grant t role ≡ false))
    unfolding grant_data_source_role
    granted_cases = elim (Option-cases (live_grant t.sources key role t.grants)) [
      | inl no_row ↦ inr (
        ap (λ o. (grant_found t key role by o).1) found
            ∙ ap (λ o. (grant_on t role by source o).1) no_row,
        sym (some-live_grant t.sources t.grants role) ∙ ap is_some no_row,
      )
      | inr (row, there) ↦ inl (
        ap (λ o. (grant_found t key role by o).1) found
            ∙ ap (λ o. (grant_on t role by source o).1) there,
        sym (some-live_grant t.sources t.grants role) ∙ ap is_some there,
      )
    ]

    new_row_live : is_live_grant key role t.sources (new_grant source.data_source_id role by) ≡ true
    new_row_live = ground (arith, live_source-any t.sources source found)

    abbrev Granted : Tables → Type 0
    Granted t' =
        (t'.sources ≡ t.sources)
        × (has_grant t' role ≡ true)
        × (count_of (is_live_grant key role t.sources) t.grants ≤ 1
            → count_of (is_live_grant key role t.sources) t'.grants ≤ 1)
        × ((other : String)
            → other ≢ role
            → any (is_live_grant key other t.sources) t'.grants ≡ has_grant t other)

    granted-Granted : Granted granted
    granted-Granted = elim granted_cases [
      | inl (same, had) ↦ subst Granted (sym same) (refl, had, λ h. h, λ other ne. refl)
      | inr (new, had_not) ↦ subst Granted (sym new) (
        refl,
        ground (
          arith,
          any-append (is_live_grant key role t.sources) t.grants
              (new_grant source.data_source_id role by ∷ []),
          new_row_live,
        ),
        λ h. ground (
          arith,
          h,
          new_row_live,
          none-count_of (is_live_grant key role t.sources) t.grants had_not,
          count_of-append (is_live_grant key role t.sources) t.grants
              (new_grant source.data_source_id role by ∷ []),
        ),
        λ other ne. ground (
          arith,
          ne,
          any-append (is_live_grant key other t.sources) t.grants
              (new_grant source.data_source_id role by ∷ []),
        ),
      )
    ]

  abbrev ended : Tables → String → Option ℕ → ℕ → Tables
  ended t role revoker now = record t {
    grants = revoke_first t.sources key role revoker now t.grants;
  }

  revoked :
      (t : Tables) (role : String) (revoker : Option ℕ) (now : ℕ)
      → has_grant t role ≡ true
      → revoke_data_source_role t key role revoker now ≡ (true, ended t role revoker now)
  unfolding revoke_data_source_role
  revoked t role revoker now has =
      ap (λ b. if b then (true, ended t role revoker now) else (false, t))
        (some-live_grant t.sources t.grants role ∙ has)

  authorized :
      (t : Tables) (role : String) (user_id : ℕ)
      → authorize_data_source t key user_id (role ∷ [])
        ≡ (if has_grant t role then ok tt else err (access_denied key user_id))
  unfolding authorize_data_source roles_cover_data_source roles_granted
  authorized t role user_id = ground (arith, contains-names t.sources t.grants role)

  abbrev pub area_of : String → AreaDescriptor
  area_of area_key = record { area_key = area_key; data_source_key = some key }

  area_shown :
      (t : Tables) (role area_key : String)
      → accessible_area_keys t (role ∷ []) (area_of area_key ∷ [])
        ≡ (if has_grant t role then area_key ∷ [] else [])
  unfolding accessible_area_keys is_area_accessible roles_cover_data_source roles_granted
  area_shown t role area_key = ground (arith, contains-names t.sources t.grants role)

  area_shown_if :
      (t : Tables) (role area_key : String) (b : Bool)
      → has_grant t role ≡ b
      → accessible_area_keys t (role ∷ []) (area_of area_key ∷ [])
        ≡ (if b then area_key ∷ [] else [])
  area_shown_if t role area_key b has =
      area_shown t role area_key ∙ ap (λ x. if x then area_key ∷ [] else []) has

  module _ {R : Type 0} (execute : AdminSqlSource → ℕ → R) where
    run_allowed :
        (t : Tables) (role : String) (user_id : ℕ) (source : DataSource)
        → live_source t.sources key ≡ some source
        → has_grant t role ≡ true
        → run_stored_data_source execute t key user_id (role ∷ [])
          ≡ ok (execute (source_of source) user_id)
    unfolding run_stored_data_source load_stored_source
    run_allowed t role user_id source found has =
        ap (run_authorized execute t key user_id) (
          authorized t role user_id
          ∙ ap (λ b. if b then ok tt else err (access_denied key user_id)) has)
        ∙ ap (λ o. run_loaded execute user_id (loaded key o)) found

    run_denied :
        (t : Tables) (role : String) (user_id : ℕ)
        → has_grant t role ≡ false
        → run_stored_data_source execute t key user_id (role ∷ []) ≡ err (access_denied key user_id)
    unfolding run_stored_data_source
    run_denied t role user_id has = ap (run_authorized execute t key user_id) (
        authorized t role user_id
        ∙ ap (λ b. if b then ok tt else err (access_denied key user_id)) has)

    -- With a live source of the key, and one live grant of it to the role at most, a grant to the role
    -- lets a user of that role alone run the source, as its live row says and under that user; the
    -- revocation after it reports that there was a grant, and from then on the same run is denied; an
    -- area over the source is among those the user may enter after the grant, and is not after the
    -- revocation; and every other role is granted just what it was.
    pub grant_data_source_role-revoke_data_source_role :
        (t : Tables) (role area_key : String) (by revoker : Option ℕ) (now user_id : ℕ)
        (source : DataSource)
        → live_source t.sources key ≡ some source
        → count_of (is_live_grant key role t.sources) t.grants ≤ 1
        → let t' = (grant_data_source_role t key role by).1 in
          let (was, t'') = revoke_data_source_role t' key role revoker now in
          (run_stored_data_source execute t' key user_id (role ∷ [])
            ≡ ok (execute (source_of source) user_id))
          × (was ≡ true)
          × (run_stored_data_source execute t'' key user_id (role ∷ [])
              ≡ err (access_denied key user_id))
          × (accessible_area_keys t' (role ∷ []) (area_of area_key ∷ []) ≡ area_key ∷ [])
          × (accessible_area_keys t'' (role ∷ []) (area_of area_key ∷ []) ≡ [])
          × ((other : String)
              → other ≢ role
              → contains (roles_granted t'' key) other ≡ contains (roles_granted t key) other)
    unfolding roles_granted
    grant_data_source_role-revoke_data_source_role t role area_key by revoker now user_id source
          found few =
        let t' = (grant_data_source_role t key role by).1 in
        let (same, has, still_few, others) = granted-Granted t role by source found in
        let gone = revoke_first-none t'.sources role revoker now t'.grants (
          subst (λ ss. count_of (is_live_grant key role ss) t'.grants ≤ 1) (sym same)
            (still_few few)) in
        let eq = revoked t' role revoker now has in
        (
          run_allowed t' role user_id source (ap (λ ss. live_source ss key) same ∙ found) has,
          ap (λ r. r.0) eq,
          ap (λ r. run_stored_data_source execute r.1 key user_id (role ∷ [])) eq
              ∙ run_denied (ended t' role revoker now) role user_id gone,
          area_shown_if t' role area_key true has,
          ap (λ r. accessible_area_keys r.1 (role ∷ []) (area_of area_key ∷ [])) eq
              ∙ area_shown_if (ended t' role revoker now) role area_key false gone,
          λ other ne.
              ap (λ r. contains (roles_granted r.1 key) other) eq
              ∙ contains-names t'.sources (ended t' role revoker now).grants other
              ∙ revoke_first-other t'.sources role other revoker now t'.grants ne
              ∙ ap (λ ss. any (is_live_grant key other ss) t'.grants) same
              ∙ others other ne
              ∙ sym (contains-names t.sources t.grants other),
        )
