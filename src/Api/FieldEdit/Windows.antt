-- ===== src/Api/FieldEdit/Windows.antt =====
-- src/mentorapp/api/field_edit.py: the windows of `FieldEditors` after any calls.
use cbm_mentoring_app.Base.{
  ℕ, String, ◌≡◌, ◌⊎◌, inl, inr, refl, sym, ◌∙◌, Option, none, some, List, [], ◌∷◌, Eq, ==-self,
  string_eq, arith, Bool-cases, Option-cases, subst, ap,
}
use cbm_mentoring_app.Base.Exec.{ok}
use cbm_mentoring_app.Base.Dict
use cbm_mentoring_app.Base.Dict.{Dict}
use cbm_mentoring_app.Api.EditSafety.Conflicts.{
  Resolution, retry_save, already_current, manual_merge, resolve_concurrent_save_conflict,
}
use cbm_mentoring_app.Api.FieldEdit.{
  FieldIdentity, field_identity_eq, identified, FieldEditor, FieldEditors, other_editor, Wire,
  base_value, is_changed, new_editor, id_field, is_structural, open_field, edit_value, request_save,
  save_succeeded, rebased, settle, save_conflicted, cancel, request_close,
}
use cbm_mentoring_app.Api.FieldEdit.Calls.{
  Call, opens, types, saves, succeeds, conflicts, cancels, closes, after_call, after_calls, IsSound,
  AreSound, IsSingle,
}

module _ {V : Type 0} ⦃e : Eq V⦄ (wire : Wire V) where
  other_editor_lem :
      (s : FieldEditors V) (w k : String) (i : FieldIdentity) (x : FieldEditor V)
      → other_editor s w i ≡ none
      → Dict.get s k ≡ some x
      → x.identity ≡ i
      → k ≡ w
  unfolding other_editor Dict.get
  other_editor_lem [] w k i x h g p = ground (arith, g)
  other_editor_lem ((j, y) ∷ s) w k i x h g p = ground (arith, h, g, p, other_editor_lem s w k i x)

  abbrev Opens : Call V → String → Type 0
  Opens (opens k t f loaded reason) w = k ≡ w
  Opens _ w = ⊥

  -- Where an editor after a call comes from: it was there; or it is sound, and in place of an editor
  -- of the same field, or opened by this call on a field that no other window has.
  abbrev Comes : FieldEditors V → Call V → String → FieldEditor V → Type 0
  Comes s x w editor =
      (Dict.get s w ≡ some editor)
      ⊎ (IsSound wire editor
          × (((old : FieldEditor V) × (Dict.get s w ≡ some old) × (old.identity ≡ editor.identity))
              ⊎ Opens x w × (other_editor s w editor.identity ≡ none)))

  opened-Comes :
      (s : FieldEditors V) (k w t f : String) (loaded : Dict String V) (reason : Option String)
      (editor : FieldEditor V)
      → Dict.get (open_field wire k t f loaded reason s).1 w ≡ some editor
      → Comes s (opens k t f loaded reason) w editor
  unfolding open_field
  opened-Comes s k w t f loaded reason editor h =
      elim (Option-cases (Dict.get loaded (id_field wire t))) [
        | inl p ↦ inl (ground (arith, h, p))
        | inr (id, p) ↦
            let identity = identified t (wire.str id) f in
            elim (Bool-cases (is_structural wire t f)) [
              | inl locked ↦ inl (ground (arith, h, p, locked))
              | inr free ↦ elim (Option-cases reason) [
                | inr (why, q) ↦ inl (ground (arith, h, p, free, q))
                | inl q ↦ elim (Option-cases (other_editor s k identity)) [
                  | inr (other, o) ↦ inl (ground (arith, h, p, free, q, o))
                  | inl o ↦ ground (
                    arith,
                    h,
                    p,
                    free,
                    q,
                    o,
                    Dict.get-put s k w (new_editor wire identity loaded),
                    ==-self (base_value wire loaded f),
                    Option-cases (Dict.get loaded "rowVersion"),
                  )
                ]
              ]
            ]
      ]

  put-Comes :
      (s : FieldEditors V) (x : Call V) (k w : String) (old new editor : FieldEditor V)
      → Dict.get s k ≡ some old
      → old.identity ≡ new.identity
      → IsSound wire new
      → Dict.get (Dict.put s k new) w ≡ some editor
      → Comes s x w editor
  put-Comes s x k w old new editor there same sound h = elim (string_eq.dec w k) [
    | yes here ↦
        let is_new : new ≡ editor = ground (arith, h, here, Dict.get-put s k w new) in
        inr (
          subst (IsSound wire) is_new sound,
          inl (old, ground (arith, there, here), same ∙ ap (λ y. y.identity) is_new),
        )
    | no other ↦ inl (ground (arith, h, other, Dict.get-put s k w new))
  ]

  remove-Comes :
      (s : FieldEditors V) (x : Call V) (k w : String) (editor : FieldEditor V)
      → Dict.get (Dict.remove s k) w ≡ some editor
      → Comes s x w editor
  remove-Comes s x k w editor h = inl (ground (arith, h, Dict.get-remove s k w))

  pub save_conflicted_lem :
      (s : FieldEditors V) (k : String) (old : FieldEditor V) (current : Dict String V)
      (attempt : ℕ) (r : Resolution V)
      → Dict.get s k ≡ some old
      → resolve_concurrent_save_conflict wire.null wire.int
          ((old.identity.field_name, old.value) ∷ [])
          old.loaded_record
          current
          attempt
        ≡ some r
      → save_conflicted wire k current attempt s ≡ (ok r, (settle wire k old current r s).1)
  unfolding save_conflicted
  save_conflicted_lem s k old current attempt (already_current v) p q = rw (p, q)
  save_conflicted_lem s k old current attempt (retry_save changes v) p q = rw (p, q)
  save_conflicted_lem s k old current attempt (manual_merge rows clean v) p q = rw (p, q)

  settled-Comes :
      (s : FieldEditors V) (x : Call V) (k w : String) (old editor : FieldEditor V)
      (current : Dict String V) (r : Resolution V)
      → Dict.get s k ≡ some old
      → IsSound wire old
      → Dict.get (settle wire k old current r s).1 w ≡ some editor
      → Comes s x w editor
  settled-Comes s x k w old editor current (already_current _) there sound h =
      remove-Comes s x k w editor h
  settled-Comes s x k w old editor current (retry_save _ _) there sound h =
      put-Comes s x k w old (rebased wire old current) editor there refl (refl, sound.1) h
  settled-Comes s x k w old editor current (manual_merge _ _ _) there sound h =
      put-Comes s x k w old (rebased wire old current) editor there refl (refl, sound.1) h

  edited : FieldEditor V → V → FieldEditor V
  edited old v = record old {
    value = v;
    dirty = is_changed wire v old.loaded_record old.identity.field_name;
  }

  step-Comes :
      (s : FieldEditors V) (x : Call V) (w : String) (editor : FieldEditor V)
      → AreSound wire s
      → Dict.get (after_call wire s x) w ≡ some editor
      → Comes s x w editor
  unfolding after_call edit_value request_save save_succeeded save_conflicted cancel request_close
      edited
  step-Comes s (opens k t f loaded reason) w editor sound h =
      opened-Comes s k w t f loaded reason editor h
  step-Comes s (types k v) w editor sound h = elim (Option-cases (Dict.get s k)) [
    | inl p ↦ inl (ground (arith, h, p))
    | inr (old, p) ↦
        put-Comes s (types k v) k w old (edited old v) editor p refl (refl, (sound k old p).1)
          (ground (arith, h, p))
  ]
  step-Comes s (saves k) w editor sound h = elim (Option-cases (Dict.get s k)) [
    | inl p ↦ inl (ground (arith, h, p))
    | inr (old, p) ↦ elim (Bool-cases old.dirty) [
      | inl q ↦
          inl (ground (arith, h, p, q, Option-cases (Dict.get old.loaded_record "rowVersion")))
      | inr q ↦ remove-Comes s (saves k) k w editor (ground (arith, h, p, q))
    ]
  ]
  step-Comes s (succeeds k n) w editor sound h = elim (Option-cases (Dict.get s k)) [
    | inl p ↦ inl (ground (arith, h, p))
    | inr (old, p) ↦ remove-Comes s (succeeds k n) k w editor (ground (arith, h, p))
  ]
  step-Comes s (conflicts k current attempt) w editor sound h = elim (Option-cases (Dict.get s k)) [
    | inl p ↦ inl (ground (arith, h, p))
    | inr (old, p) ↦
        let resolution =
          resolve_concurrent_save_conflict wire.null wire.int
            ((old.identity.field_name, old.value) ∷ []) old.loaded_record current attempt in
        elim (Option-cases resolution) [
          | inl q ↦ inl (ground (arith, h, p, q))
          | inr (r, q) ↦
              settled-Comes s (conflicts k current attempt) k w old editor current r p
                (sound k old p)
                (ap (λ (_, s'). Dict.get s' w)
                    (sym (save_conflicted_lem s k old current attempt r p q))
                  ∙ h)
        ]
  ]
  step-Comes s (cancels k) w editor sound h = elim (Option-cases (Dict.get s k)) [
    | inl p ↦ inl (ground (arith, h, p))
    | inr (old, p) ↦ remove-Comes s (cancels k) k w editor (ground (arith, h, p))
  ]
  step-Comes s (closes k) w editor sound h = elim (Option-cases (Dict.get s k)) [
    | inl p ↦ inl (ground (arith, h, p))
    | inr (old, p) ↦ elim (Bool-cases old.dirty) [
      | inl q ↦ inl (ground (arith, h, p, q))
      | inr q ↦ remove-Comes s (closes k) k w editor (ground (arith, h, p, q))
    ]
  ]

  Opens-one : (x : Call V) (j k : String) → Opens x j → Opens x k → j ≡ k
  Opens-one (opens i t f loaded reason) j k a b = sym a ∙ b
  Opens-one (types _ _) j k a b = absurd a
  Opens-one (saves _) j k a b = absurd a
  Opens-one (succeeds _ _) j k a b = absurd a
  Opens-one (conflicts _ _ _) j k a b = absurd a
  Opens-one (cancels _) j k a b = absurd a
  Opens-one (closes _) j k a b = absurd a

  step-AreSound :
      (s : FieldEditors V) (x : Call V) → AreSound wire s → AreSound wire (after_call wire s x)
  step-AreSound s x sound w editor h = elim (step-Comes s x w editor sound h) [
    | inl there ↦ sound w editor there
    | inr (good, _) ↦ good
  ]

  step-IsSingle :
      (s : FieldEditors V) (x : Call V)
      → AreSound wire s
      → IsSingle wire s
      → IsSingle wire (after_call wire s x)
  step-IsSingle s x sound single j k y z gj gk p =
      elim (came s x j y (step-Comes s x j y sound gj)) [
        | inl (old, a, b) ↦ elim (came s x k z (step-Comes s x k z sound gk)) [
          | inl (old', a', b') ↦ single j k old old' a a' (b ∙ p ∙ sym b')
          | inr (_, free) ↦ other_editor_lem s k j z.identity old free a (b ∙ p)
        ]
        | inr (opened, free) ↦ elim (came s x k z (step-Comes s x k z sound gk)) [
          | inl (old', a', b') ↦ sym (other_editor_lem s j k y.identity old' free a' (b' ∙ sym p))
          | inr (opened', _) ↦ Opens-one x j k opened opened'
        ]
      ]
    where
      came :
          (s : FieldEditors V) (x : Call V) (w : String) (editor : FieldEditor V)
          → Comes s x w editor
          → ((old : FieldEditor V) × (Dict.get s w ≡ some old) × (old.identity ≡ editor.identity))
            ⊎ Opens x w × (other_editor s w editor.identity ≡ none)
      came s x w editor (inl there) = inl (editor, there, refl)
      came s x w editor (inr (_, origin)) = origin

  calls_lem :
      (s : FieldEditors V) (calls : List (Call V))
      → AreSound wire s
      → IsSingle wire s
      → AreSound wire (after_calls wire s calls) × IsSingle wire (after_calls wire s calls)
  unfolding after_calls
  calls_lem s [] sound single = (sound, single)
  calls_lem s (x ∷ xs) sound single =
      calls_lem (after_call wire s x) xs (step-AreSound s x sound) (step-IsSingle s x sound single)

  none-AreSound : AreSound wire []
  unfolding Dict.get
  none-AreSound w editor h = ground (arith, h)

  none-IsSingle : IsSingle wire []
  unfolding Dict.get
  none-IsSingle j k x y gj gk p = ground (arith, gj)

  pub after_calls-AreSound : (calls : List (Call V)) → AreSound wire (after_calls wire [] calls)
  after_calls-AreSound calls = (calls_lem [] calls none-AreSound none-IsSingle).0

  pub after_calls-IsSingle : (calls : List (Call V)) → IsSingle wire (after_calls wire [] calls)
  after_calls-IsSingle calls = (calls_lem [] calls none-AreSound none-IsSingle).1
