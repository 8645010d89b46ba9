-- ===== src/Api/FieldEdit.antt =====
-- src/mentorapp/api/field_edit.py: `FieldEditors`, the windows that edit one field each. The values
-- of the wire are a parameter with their `null`, as are `str` and `int` of a value and the value
-- of a number. The constants that only declare how the window is drawn are left out.
pub mod Calls
pub mod Windows
pub mod Conflicted
mod Examples
use cbm_mentoring_app.Base.{
  ℕ, String, Bool, true, false, ◌&&◌, ◌||◌, not, Option, none, some, List, [], ◌∷◌, Eq, ◌==◌,
  string_eq, contains, if◌then◌else◌, or_else,
}
use cbm_mentoring_app.Base.Dict
use cbm_mentoring_app.Base.Dict.{Dict}
use cbm_mentoring_app.Base.Exec.{Exec, Result, pure, raise, gets, modify, require, ◌>>=◌, ◌>>◌}
use cbm_mentoring_app.Api.EditSafety.Conflicts.{
  structural_fields, Resolution, already_current, resolve_concurrent_save_conflict,
}
use cbm_mentoring_app.Api.EditSafety.Windows.{
  SaveNotice, CloseAnswer, close_allowed, dirty_window_guard,
}

-- `_FieldEditor.identity`
pub record FieldIdentity : Type 0 where
  pub entity_type : String
  pub record_id : String
  pub field_name : String

FieldIdentity-discrete : Discrete FieldIdentity
FieldIdentity-discrete = hlevel string_eq.dec

instance unfoldable pub field_identity_eq : Eq FieldIdentity
unfolding FieldIdentity-discrete
field_identity_eq = record { dec = FieldIdentity-discrete }

abbrev pub identified : String → String → String → FieldIdentity
identified entity_type record_id field_name = record {
  entity_type = entity_type;
  record_id = record_id;
  field_name = field_name;
}

-- `_FieldEditor`; its three names are one identity here.
pub record FieldEditor (V : Type 0) : Type 0 where
  pub identity : FieldIdentity
  pub loaded_record : Dict String V
  pub value : V
  pub dirty : Bool

-- `FieldEditors._editors`
abbrev pub FieldEditors : Type 0 → Type 0
FieldEditors V = Dict String (FieldEditor V)

pub data FieldEditError : Type 0 where
  unknown_editor : String → FieldEditError
  key_error : String → FieldEditError

pub data OpenAnswer (V : Type 0) : Type 0 where
  field_edit_opened : String → FieldIdentity → V → ℕ → OpenAnswer V
  field_edit_switch : String → FieldIdentity → OpenAnswer V
  field_edit_refused : String → String → OpenAnswer V

pub data SaveAnswer (V : Type 0) : Type 0 where
  nothing_to_save : String → SaveAnswer V
  commit_single_field : String → String → String → Dict String V → SaveAnswer V

abbrev pub structural_reason : String
structural_reason = "This is a system field; it is maintained automatically."

abbrev pub Action : Type 0 → Type 0 → Type 0
Action V = Exec (FieldEditors V) FieldEditError

-- The loop of `open`: the first other window on the field.
unfoldable pub other_editor : {V : Type 0} → FieldEditors V → String → FieldIdentity → Option String
other_editor [] window_key identity = none
other_editor ((key, editor) ∷ rest) window_key identity =
    let found = other_editor rest window_key identity in
    if editor.identity == identity && not (key == window_key) then some key else found

-- What the code asks of the values of the wire.
pub record Wire (V : Type 0) : Type 0 where
  pub null : V
  pub int : V → ℕ
  pub str : V → String
  pub of_number : ℕ → V

module _ {V : Type 0} ⦃e : Eq V⦄ (wire : Wire V) where
  -- `_FieldEditor.base_value`
  abbrev pub base_value : Dict String V → String → V
  base_value record' name = or_else (Dict.get record' name) wire.null

  abbrev pub is_changed : V → Dict String V → String → Bool
  is_changed value record' name = not (value == base_value record' name)

  -- `_FieldEditor.row_version`
  abbrev pub row_version : Dict String V → Action V ℕ
  row_version record' = do
    version ← require (Dict.get record' "rowVersion") (key_error "rowVersion")
    pure (wire.int version)

  unfoldable pub single_field_patch : String → V → ℕ → Dict String V
  single_field_patch field_name value version =
      Dict.put ((field_name, value) ∷ []) "rowVersion" (wire.of_number version)

  abbrev pub new_editor : FieldIdentity → Dict String V → FieldEditor V
  new_editor identity loaded = record {
    identity = identity;
    loaded_record = loaded;
    value = base_value loaded identity.field_name;
    dirty = false;
  }

  abbrev store_editor : String → FieldEditor V → Action V (Unit {0})
  store_editor window_key editor = modify (λ editors. Dict.put editors window_key editor)

  abbrev close : String → Action V (Unit {0})
  close window_key = modify (λ editors. Dict.remove editors window_key)

  abbrev pub open_or_switch :
      Option String → String → FieldIdentity → Dict String V → Action V (OpenAnswer V)
  open_or_switch (some key) window_key identity loaded = pure (field_edit_switch key identity)
  open_or_switch none window_key identity loaded = do
    store_editor window_key (new_editor identity loaded)
    version ← row_version loaded
    pure (field_edit_opened window_key identity (base_value loaded identity.field_name) version)

  abbrev pub open_unless :
      Option String → String → FieldIdentity → Dict String V → Action V (OpenAnswer V)
  open_unless (some reason) window_key identity loaded =
      pure (field_edit_refused identity.field_name reason)
  open_unless none window_key identity loaded = do
    found ← gets (λ editors. other_editor editors window_key identity)
    open_or_switch found window_key identity loaded

  -- `f"{entity_type}ID"`
  abbrev pub id_field : String → String
  id_field entity_type = Prim.Native.String.◌++◌ entity_type "ID"

  abbrev pub is_structural : String → String → Bool
  is_structural entity_type field_name =
      contains structural_fields field_name || field_name == id_field entity_type

  unfoldable pub open_field :
      String → String → String → Dict String V → Option String → Action V (OpenAnswer V)
  open_field window_key entity_type field_name loaded read_only_reason = do
    id ← require (Dict.get loaded (id_field entity_type)) (key_error (id_field entity_type))
    let reason =
        if is_structural entity_type field_name then some structural_reason else read_only_reason
    open_unless reason window_key (identified entity_type (wire.str id) field_name) loaded

  -- `_editor`
  abbrev pub editor_of : String → Action V (FieldEditor V)
  editor_of window_key = do
    found ← gets (λ editors. Dict.get editors window_key)
    require found (unknown_editor window_key)

  unfoldable pub edit_value : String → V → Action V (Unit {0})
  edit_value window_key value = do
    editor ← editor_of window_key
    let changed = is_changed value editor.loaded_record editor.identity.field_name
    store_editor window_key (record editor { value = value; dirty = changed })

  abbrev pub commit : String → FieldEditor V → Action V (SaveAnswer V)
  commit window_key editor = do
    version ← row_version editor.loaded_record
    pure (
        commit_single_field window_key editor.identity.entity_type editor.identity.record_id
          (single_field_patch editor.identity.field_name editor.value version))

  abbrev pub save_of : String → Bool → FieldEditor V → Action V (SaveAnswer V)
  save_of window_key false editor = do close window_key; pure (nothing_to_save window_key)
  save_of window_key true editor = commit window_key editor

  unfoldable pub request_save : String → Action V (SaveAnswer V)
  request_save window_key = do editor ← editor_of window_key; save_of window_key editor.dirty editor

  unfoldable pub save_succeeded : String → ℕ → Action V SaveNotice
  save_succeeded window_key new_row_version = do
    editor ← editor_of window_key
    close window_key
    pure (record {
      entity_type = editor.identity.entity_type;
      record_id = editor.identity.record_id;
      row_version = new_row_version;
      change_kind = "updated";
    })

  abbrev pub rebased : FieldEditor V → Dict String V → FieldEditor V
  rebased editor current = record editor {
    loaded_record = current;
    dirty = is_changed editor.value current editor.identity.field_name;
  }

  abbrev pub settle : String → FieldEditor V → Dict String V → Resolution V → Action V (Unit {0})
  settle window_key editor current (already_current _) = close window_key
  settle window_key editor current _ = store_editor window_key (rebased editor current)

  unfoldable pub save_conflicted : String → Dict String V → ℕ → Action V (Resolution V)
  save_conflicted window_key current attempt = do
    editor ← editor_of window_key
    resolution ←
        require
          (resolve_concurrent_save_conflict wire.null wire.int
            ((editor.identity.field_name, editor.value) ∷ []) editor.loaded_record current attempt)
          (key_error "rowVersion")
    settle window_key editor current resolution
    pure resolution

  unfoldable pub cancel : String → Action V (Unit {0})
  cancel window_key = do editor_of window_key; close window_key

  abbrev pub close_or_guard : String → Bool → FieldEditor V → Action V CloseAnswer
  close_or_guard window_key true editor =
      pure (dirty_window_guard window_key (editor.identity.field_name ∷ []))
  close_or_guard window_key false editor = do close window_key; pure (close_allowed window_key)

  unfoldable pub request_close : String → Action V CloseAnswer
  request_close window_key = do
    editor ← editor_of window_key
    close_or_guard window_key editor.dirty editor
