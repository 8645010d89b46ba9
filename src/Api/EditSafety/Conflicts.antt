-- ===== src/Api/EditSafety/Conflicts.antt =====
-- src/mentorapp/api/edit_safety.py: what a client does after a save was refused as stale. The
-- values of the wire are a parameter with their `null`, as `int(...)` of a value is.
use cbm_mentoring_app.Base.{
  Option-cases, Bool-cases, ◌≢◌, ℕ, String, ◌≡◌, ◌∙◌, subst, ap, ◌⊎◌, inl, inr, refl, Bool, true,
  false, ◌&&◌, ◌||◌, not, Option, none, some, is_some, or_else, List, [], ◌∷◌, arith, Eq, ◌==◌,
  string_eq, contains, IsIn, contains-map, if◌then◌else◌, leb, keep, map,
}
use cbm_mentoring_app.Base.Dict
use cbm_mentoring_app.Base.Dict.{Dict, IsDict}
use cbm_mentoring_app.Base.Sorting.{sorted_names, contains-sorted_names}

-- `STRUCTURAL_FIELDS` of api/records.py
abbrev pub structural_fields : List String
structural_fields =
    "createdAt" ∷ "createdBy" ∷ "modifiedAt" ∷ "modifiedBy" ∷ "deletedAt" ∷ "deletedBy"
    ∷ "rowVersion" ∷ "customAttributes" ∷ []

abbrev pub auto_retry_limit : ℕ
auto_retry_limit = 3

pub record FieldConflict (V : Type 0) : Type 0 where
  pub field_name : String
  pub base_value : V
  pub your_value : V
  pub their_value : V

pub data Resolution (V : Type 0) : Type 0 where
  retry_save : Dict String V → ℕ → Resolution V
  already_current : ℕ → Resolution V
  manual_merge : List (FieldConflict V) → Dict String V → ℕ → Resolution V

module _ {V : Type 0} ⦃e : Eq V⦄ (null : V) (int : V → ℕ) where
  -- `record.get(name)`
  abbrev pub field_of : Dict String V → String → V
  field_of r name = or_else (Dict.get r name) null

  -- `name in their_changed`
  unfoldable pub is_their_change : Dict String V → Dict String V → String → Bool
  is_their_change loaded current name =
      (is_some (Dict.get loaded name) || is_some (Dict.get current name))
      && not (contains structural_fields name)
      && not (field_of loaded name == field_of current name)

  unfoldable pub still_dirty_of : Dict String V → Dict String V → Dict String V
  still_dirty_of dirty current = keep (λ (name, value). not (value == field_of current name)) dirty

  unfoldable pub conflicted_of : Dict String V → Dict String V → Dict String V → List String
  conflicted_of dirty loaded current =
      sorted_names (keep (is_their_change loaded current) (Dict.keys dirty))

  unfoldable pub conflict_row :
      Dict String V → Dict String V → Dict String V → String → FieldConflict V
  conflict_row dirty loaded current name = record {
    field_name = name;
    base_value = field_of loaded name;
    your_value = field_of dirty name;
    their_value = field_of current name;
  }

  abbrev decide :
      Dict String V → List String → List (FieldConflict V) → Dict String V → ℕ → ℕ → Resolution V
  decide [] names rows clean version attempt = already_current version
  decide (d ∷ ds) [] rows clean version attempt =
      if leb attempt auto_retry_limit
      then retry_save (d ∷ ds) version
      else manual_merge rows clean version
  decide (d ∷ ds) (n ∷ ns) rows clean version attempt = manual_merge rows clean version

  -- `None` is the `KeyError` of a record without `rowVersion`.
  unfoldable pub resolve_concurrent_save_conflict :
      Dict String V → Dict String V → Dict String V → ℕ → Option (Resolution V)
  resolve_concurrent_save_conflict dirty loaded current attempt =
      let still = still_dirty_of dirty current in
      let names = conflicted_of still loaded current in
      elim (Dict.get current "rowVersion") [
        | none ↦ none
        | some version ↦ some (
            decide still names (map (conflict_row still loaded current) names)
              (keep (λ (name, value). not (contains names name)) still) (int version) attempt)
      ]

  -- The other save left the field as it was loaded, or the field is one that no save names.
  abbrev pub IsUntouched : Dict String V → Dict String V → String → Type 0
  IsUntouched loaded current name =
      (contains structural_fields name ≡ true) ⊎ (field_of loaded name ≡ field_of current name)

  -- The other save changed the field.
  abbrev pub IsTouched : Dict String V → Dict String V → String → Type 0
  IsTouched loaded current name =
      (contains structural_fields name ≡ false) × (field_of loaded name ≢ field_of current name)

  is_their_change-IsUntouched :
      (loaded current : Dict String V) (name : String)
      → is_their_change loaded current name ≡ false
      → IsUntouched loaded current name
  unfolding is_their_change
  is_their_change-IsUntouched loaded current name h =
      ground (arith, h, Option-cases (Dict.get loaded name), Option-cases (Dict.get current name))

  is_their_change-IsTouched :
      (loaded current : Dict String V) (name : String)
      → is_their_change loaded current name ≡ true
      → IsTouched loaded current name
  unfolding is_their_change
  is_their_change-IsTouched loaded current name h = ground (arith, h)

  -- What a resolution may do with the field `name`, of which the user typed `value`.
  abbrev pub Settles : Dict String V → Dict String V → String → V → ℕ → Resolution V → Type 0
  Settles loaded current name value version (already_current v) =
      (value ≡ field_of current name) × (v ≡ version)
  Settles loaded current name value version (retry_save changes v) =
      ((value ≡ field_of current name)
        ⊎ (Dict.get changes name ≡ some value) × IsUntouched loaded current name)
      × (v ≡ version)
  Settles loaded current name value version (manual_merge conflicts clean v) =
      ((value ≡ field_of current name)
        ⊎ ((Dict.get clean name ≡ some value) × IsUntouched loaded current name
            ⊎ IsIn
                (record {
                  field_name = name;
                  base_value = field_of loaded name;
                  your_value = value;
                  their_value = field_of current name;
                })
                conflicts
              × IsTouched loaded current name))
      × (v ≡ version)

  still_dirty_of_lem :
      (dirty current : Dict String V) (name : String) (value : V)
      → IsDict dirty
      → Dict.get dirty name ≡ some value
      → (value ≡ field_of current name)
        ⊎ (Dict.get (still_dirty_of dirty current) name ≡ some value)
  unfolding still_dirty_of
  still_dirty_of_lem dirty current name value h typed =
      ground (arith, h, typed, Dict.get-keep (λ (n, v). not (v == field_of current n)) dirty name h)

  conflicted_of_lem :
      (still loaded current : Dict String V) (name : String) (value : V)
      → Dict.get still name ≡ some value
      → contains (conflicted_of still loaded current) name ≡ is_their_change loaded current name
  unfolding conflicted_of
  conflicted_of_lem still loaded current name value h = ground (
    arith,
    h,
    Dict.contains-keep-keys (is_their_change loaded current) still name,
    contains-sorted_names (keep (is_their_change loaded current) (Dict.keys still)) name,
  )

  conflict_row_lem :
      (still loaded current : Dict String V) (name : String) (value : V)
      → Dict.get still name ≡ some value
      → conflict_row still loaded current name ≡ record {
        field_name = name;
        base_value = field_of loaded name;
        your_value = value;
        their_value = field_of current name;
      }
  unfolding conflict_row
  conflict_row_lem still loaded current name value h = rw h refl

  still_dirty_of-IsDict :
      (dirty current : Dict String V) → IsDict dirty → IsDict (still_dirty_of dirty current)
  unfolding still_dirty_of
  still_dirty_of-IsDict dirty current h =
      Dict.keep-IsDict (λ (n, v). not (v == field_of current n)) dirty h

  clean_lem :
      (still : Dict String V) (names : List String) (name : String) (value : V)
      → IsDict still
      → Dict.get still name ≡ some value
      → contains names name ≡ false
      → Dict.get (keep (λ (n, v). not (contains names n)) still) name ≡ some value
  clean_lem still names name value h kept free =
      ground (arith, kept, free, Dict.get-keep (λ (n, v). not (contains names n)) still name h)

  decide_lem :
      (still loaded current : Dict String V) (names : List String) (rows : List (FieldConflict V))
      (clean : Dict String V) (version attempt : ℕ) (name : String) (value : V)
      → (value ≡ field_of current name)
        ⊎ (Dict.get still name ≡ some value)
          × (contains names name ≡ is_their_change loaded current name)
          × (is_their_change loaded current name ≡ true
              → IsIn
                  (record {
                    field_name = name;
                    base_value = field_of loaded name;
                    your_value = value;
                    their_value = field_of current name;
                  })
                  rows)
          × (is_their_change loaded current name ≡ false → Dict.get clean name ≡ some value)
      → Settles loaded current name value version (decide still names rows clean version attempt)
  unfolding Dict.get
  decide_lem [] loaded current names rows clean version attempt name value h = ground (arith, h)
  decide_lem (d ∷ ds) loaded current [] rows clean version attempt name value h =
      ground (arith, h, is_their_change-IsUntouched loaded current name)
  decide_lem (d ∷ ds) loaded current (n ∷ ns) rows clean version attempt name value h = ground (
    arith,
    h,
    is_their_change-IsUntouched loaded current name,
    is_their_change-IsTouched loaded current name,
    Bool-cases (is_their_change loaded current name),
  )

  pub resolve_lem :
      (dirty loaded current : Dict String V) (attempt : ℕ) (version : V)
      → Dict.get current "rowVersion" ≡ some version
      → resolve_concurrent_save_conflict dirty loaded current attempt
        ≡ some (
            let still = still_dirty_of dirty current in
            let names = conflicted_of still loaded current in
            decide still names
              (map (conflict_row still loaded current) names)
              (keep (λ (name, value). not (contains names name)) still)
              (int version)
              attempt)
  unfolding resolve_concurrent_save_conflict
  resolve_lem dirty loaded current attempt version h =
      ap
        (λ found. elim found as (λ _. Option (Resolution V)) [
          | none ↦ none
          | some version ↦ some (
              let still = still_dirty_of dirty current in
              let names = conflicted_of still loaded current in
              decide still names (map (conflict_row still loaded current) names)
                (keep (λ (name, value). not (contains names name)) still) (int version) attempt)
        ])
        h

  -- Where the current record has a version and the refused changes are a dict: every field the user
  -- typed ends as agreement with the current value; or is sent again, or kept for it, where the
  -- current value is the one that was loaded, or the field is structural; or stands in the merge
  -- with its base, its own and their value, where theirs is not the one that was loaded. And the
  -- answer goes by the current version.
  pub nothing_overwritten :
      (dirty loaded current : Dict String V) (attempt : ℕ) (name : String) (value version : V)
      → IsDict dirty
      → Dict.get dirty name ≡ some value
      → Dict.get current "rowVersion" ≡ some version
      → (r : Resolution V) × (resolve_concurrent_save_conflict dirty loaded current attempt
          ≡ some r)
        × Settles loaded current name value (int version) r
  nothing_overwritten dirty loaded current attempt name value version is_dict typed versioned =
      let still = still_dirty_of dirty current in
      let names = conflicted_of still loaded current in
      (
        _,
        resolve_lem dirty loaded current attempt version versioned,
        decide_lem still loaded current names (map (conflict_row still loaded current) names)
            (keep (λ (n, v). not (contains names n)) still) (int version) attempt name value
            (elim (still_dirty_of_lem dirty current name value is_dict typed) [
              | inl agreed ↦ inl agreed
              | inr kept ↦
                  let same = conflicted_of_lem still loaded current name value kept in
                  inr (
                    kept,
                    same,
                    (λ theirs.
                        subst (λ r. IsIn r (map (conflict_row still loaded current) names))
                          (conflict_row_lem still loaded current name value kept)
                          (contains-map (conflict_row still loaded current) names name
                            (same ∙ theirs))),
                    (λ free.
                        clean_lem still names name value
                          (still_dirty_of-IsDict dirty current is_dict) kept (same ∙ free)),
                  )
            ]),
      )
