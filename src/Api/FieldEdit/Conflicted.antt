-- ===== src/Api/FieldEdit/Conflicted.antt =====
-- src/mentorapp/api/field_edit.py: what a save of one field commits, and what becomes of a value
-- whose save was refused as stale.
use cbm_mentoring_app.Base.{
  ℕ, String, ◌≡◌, ◌≢◌, ◌⊎◌, inl, inr, refl, sym, ◌∙◌, true, false, none, some, List, [], ◌∷◌, Eq,
  ==-self, string_eq, arith, Bool-cases, Option-cases,
}
use cbm_mentoring_app.Base.Exec.{ok, err}
use cbm_mentoring_app.Base.Dict
use cbm_mentoring_app.Base.Dict.{Dict}
use cbm_mentoring_app.Api.EditSafety.Conflicts.{
  Resolution, retry_save, already_current, manual_merge, resolve_concurrent_save_conflict,
  resolve_lem, still_dirty_of, Settles, nothing_overwritten,
}
use cbm_mentoring_app.Api.FieldEdit.{
  FieldEditor, FieldEditors, key_error, nothing_to_save, commit_single_field, Wire, base_value,
  is_changed, single_field_patch, is_structural, rebased, request_save, save_conflicted,
}
use cbm_mentoring_app.Api.FieldEdit.Calls.{Call, after_calls}
use cbm_mentoring_app.Api.FieldEdit.Windows.{
  save_conflicted_lem, after_calls-AreSound, after_calls-IsSingle,
}

module _ {V : Type 0} ⦃e : Eq V⦄ (wire : Wire V) where
  -- The smallest write: the field, and the version it was read at.
  abbrev pub one_field : FieldEditor V → ℕ → Dict String V
  one_field editor version =
      (editor.identity.field_name, editor.value) ∷ ("rowVersion", wire.of_number version) ∷ []

  single_field_patch_lem :
      (editor : FieldEditor V) (version : ℕ)
      → is_structural wire editor.identity.entity_type editor.identity.field_name ≡ false
      → single_field_patch wire editor.identity.field_name editor.value version
        ≡ one_field editor version
  unfolding single_field_patch Dict.put
  single_field_patch_lem editor version h = ground (arith, h)

  -- What the window's Save answers: it closes without a write when the value is the record's own;
  -- else it commits the one field against the record's version, and fails without a version.
  abbrev pub Saves : FieldEditors V → String → FieldEditor V → Type 0
  Saves s w editor =
      (is_changed wire editor.value editor.loaded_record editor.identity.field_name ≡ false)
        × (request_save wire w s ≡ (ok (nothing_to_save w), Dict.remove s w))
      ⊎ (is_changed wire editor.value editor.loaded_record editor.identity.field_name ≡ true)
        × (((version : V) × (Dict.get editor.loaded_record "rowVersion" ≡ some version)
              × (request_save wire w s ≡ (
                ok (
                    commit_single_field w editor.identity.entity_type editor.identity.record_id
                      (one_field editor (wire.int version))),
                s,
              )))
            ⊎ (Dict.get editor.loaded_record "rowVersion" ≡ none)
              × (request_save wire w s ≡ (err (key_error "rowVersion"), s)))

  Saves_lem :
      (s : FieldEditors V) (w : String) (editor : FieldEditor V)
      → Dict.get s w ≡ some editor
      → editor.dirty ≡ is_changed wire editor.value editor.loaded_record editor.identity.field_name
      → is_structural wire editor.identity.entity_type editor.identity.field_name ≡ false
      → Saves s w editor
  unfolding request_save
  Saves_lem s w editor there same free = elim (Bool-cases editor.dirty) [
    | inr off ↦ inl (sym same ∙ off, rw (there, off))
    | inl on ↦ elim (Option-cases (Dict.get editor.loaded_record "rowVersion")) [
      | inl gone ↦ inr (sym same ∙ on, inr (gone, rw (there, on, gone)))
      | inr (version, found) ↦ inr (
        sym same ∙ on,
        inl (
          version,
          found,
          rw (there, on, found, single_field_patch_lem editor (wire.int version) free),
        ),
      )
    ]
  ]

  -- The record that the refusal brought holds the value, and the window closes; or the answer
  -- settles the field, and the next Save commits the value against that record's version.
  abbrev pub Survives : FieldEditors V → String → FieldEditor V → Dict String V → ℕ → ℕ → Type 0
  Survives s w editor current version attempt =
      (editor.value ≡ base_value wire current editor.identity.field_name)
        × (save_conflicted wire w current attempt s
            ≡ (ok (already_current version), Dict.remove s w))
      ⊎ (editor.value ≢ base_value wire current editor.identity.field_name)
        × ((r : Resolution V) × (s' : FieldEditors V) × (save_conflicted wire w current attempt s
              ≡ (ok r, s'))
            × Settles wire.null wire.int editor.loaded_record current editor.identity.field_name
                editor.value version r
            × (request_save wire w s' ≡ (
              ok (
                  commit_single_field w editor.identity.entity_type editor.identity.record_id
                    (one_field editor version)),
              s',
            )))

  committed_lem :
      (s : FieldEditors V) (w : String) (editor : FieldEditor V) (current : Dict String V)
      (version : V)
      → Dict.get current "rowVersion" ≡ some version
      → is_changed wire editor.value current editor.identity.field_name ≡ true
      → is_structural wire editor.identity.entity_type editor.identity.field_name ≡ false
      → let s' = Dict.put s w (rebased wire editor current) in
        request_save wire w s' ≡ (
          ok (
              commit_single_field w editor.identity.entity_type editor.identity.record_id
                (one_field editor (wire.int version))),
          s',
        )
  unfolding request_save
  committed_lem s w editor current version found on free = rw (
    Dict.get-put s w w (rebased wire editor current),
    ==-self w,
    on,
    found,
    single_field_patch_lem editor (wire.int version) free,
  )

  agreed_lem :
      (editor : FieldEditor V) (current : Dict String V) (attempt : ℕ) (version : V)
      → Dict.get current "rowVersion" ≡ some version
      → is_changed wire editor.value current editor.identity.field_name ≡ false
      → resolve_concurrent_save_conflict wire.null wire.int
          ((editor.identity.field_name, editor.value) ∷ [])
          editor.loaded_record
          current
          attempt
        ≡ some (already_current (wire.int version))
  unfolding still_dirty_of
  agreed_lem editor current attempt version found same =
      resolve_lem wire.null wire.int ((editor.identity.field_name, editor.value) ∷ [])
        editor.loaded_record current attempt version found
      ∙ rw same refl

  differs_lem :
      (s : FieldEditors V) (w : String) (editor : FieldEditor V) (current : Dict String V)
      (version : V) (attempt : ℕ) (r : Resolution V)
      → Dict.get s w ≡ some editor
      → Dict.get current "rowVersion" ≡ some version
      → is_changed wire editor.value current editor.identity.field_name ≡ true
      → is_structural wire editor.identity.entity_type editor.identity.field_name ≡ false
      → resolve_concurrent_save_conflict wire.null wire.int
          ((editor.identity.field_name, editor.value) ∷ [])
          editor.loaded_record
          current
          attempt
        ≡ some r
      → Settles wire.null wire.int editor.loaded_record current editor.identity.field_name
          editor.value
          (wire.int version)
          r
      → Survives s w editor current (wire.int version) attempt
  differs_lem s w editor current version attempt (already_current v) there found on free q h =
      absurd (ground (arith, on, h))
  differs_lem s w editor current version attempt (retry_save changes v) there found on free q h =
      inr (
        λ same. ground (arith, on, same),
        (
          retry_save changes v,
          _,
          save_conflicted_lem wire s w editor current attempt (retry_save changes v) there q,
          h,
          committed_lem s w editor current version found on free,
        ),
      )
  differs_lem s w editor current version attempt (manual_merge rows clean v) there found on free q
        h =
      inr (
        λ same. ground (arith, on, same),
        (
          manual_merge rows clean v,
          _,
          save_conflicted_lem wire s w editor current attempt (manual_merge rows clean v) there q,
          h,
          committed_lem s w editor current version found on free,
        ),
      )

  Survives_lem :
      (s : FieldEditors V) (w : String) (editor : FieldEditor V) (current : Dict String V)
      (version : V) (attempt : ℕ)
      → Dict.get s w ≡ some editor
      → is_structural wire editor.identity.entity_type editor.identity.field_name ≡ false
      → Dict.get current "rowVersion" ≡ some version
      → Survives s w editor current (wire.int version) attempt
  unfolding Dict.get
  Survives_lem s w editor current version attempt there free found =
      elim (Bool-cases (is_changed wire editor.value current editor.identity.field_name)) [
        | inr off ↦ inl (
          ground (arith, off),
          save_conflicted_lem wire s w editor current attempt (already_current (wire.int version))
              there (agreed_lem editor current attempt version found off),
        )
        | inl on ↦
            let name = editor.identity.field_name in
            let (r, q, h) =
              nothing_overwritten wire.null wire.int ((name, editor.value) ∷ [])
                editor.loaded_record current attempt name editor.value version (refl, tt)
                (ground arith) found in
            differs_lem s w editor current version attempt r there found on free q h
      ]

  -- Whatever was called before on a session's windows, from none, and for any window that edits a
  -- field: no other window edits it. Its Save closes the window without a write exactly when the
  -- value is the record's own, else it commits that one field against the version of the record,
  -- and fails only if the record has none. And when its save is refused with a record that has a
  -- version, the value is not lost: the window closes only if that record holds the value already;
  -- else the standard resolution settles the field, and the next Save commits the same value against
  -- the new version.
  pub field_edits :
      (calls : List (Call V)) (w : String) (editor : FieldEditor V) (current : Dict String V)
      (version : V) (attempt : ℕ)
      → Dict.get (after_calls wire [] calls) w ≡ some editor
      → Dict.get current "rowVersion" ≡ some version
      → ¬ (
          (k : String) × (other : FieldEditor V) × (Dict.get (after_calls wire [] calls) k
            ≡ some other)
          × (other.identity ≡ editor.identity)
          × (k ≢ w))
        × Saves (after_calls wire [] calls) w editor
        × Survives (after_calls wire [] calls) w editor current (wire.int version) attempt
  field_edits calls w editor current version attempt there found =
      let s = after_calls wire [] calls in
      let (same, free) = after_calls-AreSound wire calls w editor there in
      (
        λ (k, other, here, p, apart).
            apart (after_calls-IsSingle wire calls k w other editor here there p),
        Saves_lem s w editor there same free,
        Survives_lem s w editor current version attempt there free found,
      )
