-- ===== src/Api/EditSafety/Windows.antt =====
-- src/mentorapp/api/edit_safety.py: `EditorWindows`, the editors of one user session.
use cbm_mentoring_app.Base.{
  ℕ, String, Bool, true, ◌&&◌, not, Option, none, some, List, [], ◌∷◌, ◌++◌, ◌==◌, string_eq,
  contains, if◌then◌else◌, ltb,
}
use cbm_mentoring_app.Base.Dict
use cbm_mentoring_app.Base.Dict.{Dict, dict_laws}
use cbm_mentoring_app.Base.Exec.{Exec, Result, ok, pure, gets, modify, require, ◌>>=◌, ◌>>◌}
use cbm_mentoring_app.Base.Sorting.{sorted_names}

pub record SaveNotice : Type 0 where
  pub entity_type : String
  pub record_id : String
  pub row_version : ℕ
  pub change_kind : String

abbrev older_than : Option ℕ → ℕ → Bool
older_than none v = true
older_than (some mine) v = ltb mine v

-- `surface_needs_refresh`; `record_id` and `row_version` are `None` for a grid.
unfoldable pub surface_needs_refresh : SaveNotice → String → Option String → Option ℕ → Bool
surface_needs_refresh notice entity_type none row_version = entity_type == notice.entity_type
surface_needs_refresh notice entity_type (some record_id) row_version =
    entity_type == notice.entity_type
    && record_id == notice.record_id
    && older_than row_version notice.row_version

-- `_Editor`; the set of dirty fields is a list without repetitions.
pub record Editor : Type 0 where
  pub entity_type : String
  pub record_id : String
  pub row_version : ℕ
  pub dirty_fields : List String

abbrev pub EditorWindows : Type 0
EditorWindows = Dict String Editor

pub data UnknownEditorError : Type 0 where
  unknown_editor : String → UnknownEditorError

pub data EditAnswer : Type 0 where
  edit_started : String → String → String → ℕ → EditAnswer
  edit_collision_switch : String → String → String → EditAnswer

pub data CloseAnswer : Type 0 where
  close_allowed : String → CloseAnswer
  dirty_window_guard : String → List String → CloseAnswer

pub data NoticeAction : Type 0 where
  refresh : NoticeAction
  hold : NoticeAction
  ignore : NoticeAction

-- `editor.identity() == (entity_type, record_id)`
abbrev pub edits : String → String → Editor → Bool
edits entity_type record_id editor =
    editor.entity_type == entity_type && editor.record_id == record_id

-- The loop of `begin_edit`: the first other window that edits the record.
unfoldable pub other_window : EditorWindows → String → String → String → Option String
other_window [] window_key entity_type record_id = none
other_window ((key, editor) ∷ rest) window_key entity_type record_id =
    let found = other_window rest window_key entity_type record_id in
    if edits entity_type record_id editor && not (key == window_key) then some key else found

-- `self._editors.setdefault(window_key, _Editor(...)).row_version = row_version`
abbrev pub set_default : Option Editor → String → String → ℕ → Editor
set_default none entity_type record_id row_version = record {
  entity_type = entity_type;
  record_id = record_id;
  row_version = row_version;
  dirty_fields = [];
}
set_default (some editor) entity_type record_id row_version = record editor {
  row_version = row_version;
}

abbrev start_or_switch :
    Option String
    → EditorWindows
    → String
    → String
    → String
    → ℕ
    → Result UnknownEditorError EditAnswer × EditorWindows
start_or_switch (some key) windows window_key entity_type record_id row_version =
    (ok (edit_collision_switch key entity_type record_id), windows)
start_or_switch none windows window_key entity_type record_id row_version = (
  ok (edit_started window_key entity_type record_id row_version),
  Dict.put windows window_key
      (set_default (Dict.get windows window_key) entity_type record_id row_version),
)

unfoldable pub begin_edit :
    String → String → String → ℕ → Exec EditorWindows UnknownEditorError EditAnswer
begin_edit window_key entity_type record_id row_version windows =
    start_or_switch (other_window windows window_key entity_type record_id) windows window_key
      entity_type record_id row_version

-- `_editor`
abbrev pub editor_of : String → Exec EditorWindows UnknownEditorError Editor
editor_of window_key = do
  found ← gets (λ windows. Dict.get windows window_key)
  require found (unknown_editor window_key)

abbrev store_editor : String → Editor → Exec EditorWindows UnknownEditorError (Unit {0})
store_editor window_key editor = modify (λ windows. Dict.put windows window_key editor)

unfoldable pub field_edited : String → String → Exec EditorWindows UnknownEditorError (Unit {0})
field_edited window_key field_name = do
  editor ← editor_of window_key
  let added = editor.dirty_fields ++ field_name ∷ []
  let dirty = if contains editor.dirty_fields field_name then editor.dirty_fields else added
  store_editor window_key (record editor { dirty_fields = dirty })

unfoldable pub request_close : String → Exec EditorWindows UnknownEditorError CloseAnswer
request_close window_key = do
  editor ← editor_of window_key
  elim editor.dirty_fields [
    | [] ↦ do modify (λ windows. Dict.remove windows window_key); pure (close_allowed window_key)
    | f ∷ fs ↦ pure (dirty_window_guard window_key (sorted_names (f ∷ fs)))
  ]

unfoldable pub discard_and_close : String → Exec EditorWindows UnknownEditorError (Unit {0})
discard_and_close window_key = do
  editor_of window_key
  modify (λ windows. Dict.remove windows window_key)

unfoldable pub save_succeeded : String → ℕ → Exec EditorWindows UnknownEditorError SaveNotice
save_succeeded window_key new_row_version = do
  editor ← editor_of window_key
  store_editor window_key (record editor { dirty_fields = []; row_version = new_row_version })
  pure (record {
    entity_type = editor.entity_type;
    record_id = editor.record_id;
    row_version = new_row_version;
    change_kind = "updated";
  })

abbrev refresh_or_hold : List String → NoticeAction
refresh_or_hold [] = refresh
refresh_or_hold (_ ∷ _) = hold

unfoldable pub notice_action :
    String → SaveNotice → Exec EditorWindows UnknownEditorError NoticeAction
notice_action window_key notice = do
  editor ← editor_of window_key
  let stale =
      surface_needs_refresh notice editor.entity_type (some editor.record_id)
        (some editor.row_version)
  pure (if stale then refresh_or_hold editor.dirty_fields else ignore)

unfoldable pub rebased : String → ℕ → Exec EditorWindows UnknownEditorError (Unit {0})
rebased window_key row_version = do
  editor ← editor_of window_key
  store_editor window_key (record editor { row_version = row_version })

unfoldable pub open_editors : EditorWindows → List String
open_editors windows = Dict.keys windows
