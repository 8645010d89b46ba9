-- ===== src/Api/FieldEdit/Calls.antt =====
-- src/mentorapp/api/field_edit.py: the calls of `FieldEditors`, and what holds of its windows.
use cbm_mentoring_app.Base.{ℕ, String, ◌≡◌, false, Option, some, List, [], ◌∷◌, Eq, string_eq}
use cbm_mentoring_app.Base.Dict
use cbm_mentoring_app.Base.Dict.{Dict}
use cbm_mentoring_app.Api.FieldEdit.{
  field_identity_eq, FieldEditor, FieldEditors, Wire, is_changed, is_structural, open_field,
  edit_value, request_save, save_succeeded, save_conflicted, cancel, request_close,
}

pub data Call (V : Type 0) : Type 0 where
  opens : String → String → String → Dict String V → Option String → Call V
  types : String → V → Call V
  saves : String → Call V
  succeeds : String → ℕ → Call V
  conflicts : String → Dict String V → ℕ → Call V
  cancels : String → Call V
  closes : String → Call V

module _ {V : Type 0} ⦃e : Eq V⦄ (wire : Wire V) where
  unfoldable pub after_call : FieldEditors V → Call V → FieldEditors V
  after_call s (opens w t f loaded reason) = (open_field wire w t f loaded reason s).1
  after_call s (types w v) = (edit_value wire w v s).1
  after_call s (saves w) = (request_save wire w s).1
  after_call s (succeeds w n) = (save_succeeded wire w n s).1
  after_call s (conflicts w current attempt) = (save_conflicted wire w current attempt s).1
  after_call s (cancels w) = (cancel wire w s).1
  after_call s (closes w) = (request_close wire w s).1

  unfoldable pub after_calls : FieldEditors V → List (Call V) → FieldEditors V
  after_calls s [] = s
  after_calls s (x ∷ xs) = after_calls (after_call s x) xs

  -- The editor is of a field a user may edit, and dirty exactly when its value is not its record's.
  abbrev pub IsSound : FieldEditor V → Type 0
  IsSound editor =
      (editor.dirty ≡ is_changed wire editor.value editor.loaded_record editor.identity.field_name)
      × (is_structural wire editor.identity.entity_type editor.identity.field_name ≡ false)

  abbrev pub AreSound : FieldEditors V → Type 0
  AreSound s = (w : String) (x : FieldEditor V) → Dict.get s w ≡ some x → IsSound x

  abbrev pub IsSingle : FieldEditors V → Type 0
  IsSingle s =
      (j k : String) (x y : FieldEditor V)
      → Dict.get s j ≡ some x
      → Dict.get s k ≡ some y
      → x.identity ≡ y.identity
      → j ≡ k
