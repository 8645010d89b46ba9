-- ===== src/Api/EditSafety/Editing.antt =====
-- src/mentorapp/api/edit_safety.py: `EditorWindows` under every sequence of its calls.
use cbm_mentoring_app.Base.{
  ℕ, String, ◌≡◌, inl, inr, Bool, true, false, Option, none, some, List, [], ◌∷◌, ◌++◌, arith, ◌==◌,
  string_eq, contains, if◌then◌else◌, All, Option-cases,
}
use cbm_mentoring_app.Base.Dict
use cbm_mentoring_app.Base.Dict.{Dict, IsDict}
use cbm_mentoring_app.Api.EditSafety.Windows.{
  SaveNotice, Editor, EditorWindows, set_default, begin_edit, field_edited, request_close,
  discard_and_close, save_succeeded, notice_action, rebased,
}

pub data Call : Type 0 where
  begins : String → String → String → ℕ → Call
  edited : String → String → Call
  closes : String → Call
  discards : String → Call
  saved : String → ℕ → Call
  noticed : String → SaveNotice → Call
  rebases : String → ℕ → Call

unfoldable pub after_call : EditorWindows → Call → EditorWindows
after_call s (begins w t r v) = (begin_edit w t r v s).1
after_call s (edited w f) = (field_edited w f s).1
after_call s (closes w) = (request_close w s).1
after_call s (discards w) = (discard_and_close w s).1
after_call s (saved w v) = (save_succeeded w v s).1
after_call s (noticed w n) = (notice_action w n s).1
after_call s (rebases w v) = (rebased w v s).1

unfoldable pub after_calls : EditorWindows → List Call → EditorWindows
after_calls s [] = s
after_calls s (x ∷ xs) = after_calls (after_call s x) xs

-- The window's own save, or its confirmed discard.
abbrev pub ends_edits : String → Call → Bool
ends_edits w (discards k) = w == k
ends_edits w (saved k _) = w == k
ends_edits w _ = false

abbrev pub has_dirty : String → Option Editor → Bool
has_dirty f none = false
has_dirty f (some editor) = contains editor.dirty_fields f

abbrev pub is_dirty : EditorWindows → String → String → Bool
is_dirty s w f = has_dirty f (Dict.get s w)

contains-append_lem :
    (xs : List String) (a b : String) → contains xs a ≡ true → contains (xs ++ b ∷ []) a ≡ true
contains-append_lem [] a b h = ground (arith, h)
contains-append_lem (x ∷ xs) a b h = ground (arith, h, contains-append_lem xs a b)

step_survives :
    (s : EditorWindows) (x : Call) (w f : String)
    → is_dirty s w f ≡ true
    → ends_edits w x ≡ false
    → is_dirty (after_call s x) w f ≡ true
unfolding after_call begin_edit field_edited request_close discard_and_close save_succeeded
    notice_action rebased
step_survives s (begins k t r v) w f h q = elim (Option-cases (Dict.get s k)) [
  | inl p ↦ ground (arith, h, p, Dict.get-put s k w (set_default none t r v))
  | inr (old, p) ↦ ground (arith, h, p, Dict.get-put s k w (set_default (some old) t r v))
]
step_survives s (edited k g) w f h q = elim (Option-cases (Dict.get s k)) [
  | inl p ↦ ground (arith, h, q, p)
  | inr (old, p) ↦ ground (
    arith,
    h,
    q,
    p,
    contains-append_lem old.dirty_fields f g,
    Dict.get-put s k w (record old {
      dirty_fields =
          if contains old.dirty_fields g then old.dirty_fields else old.dirty_fields ++ g ∷ [];
    }),
  )
]
step_survives s (closes k) w f h q = elim (Option-cases (Dict.get s k)) [
  | inl p ↦ ground (arith, h, q, p)
  | inr (old, p) ↦ ground (arith, h, q, p, Dict.get-remove s k w)
]
step_survives s (discards k) w f h q = ground (arith, h, q, Dict.get-remove s k w)
step_survives s (saved k v) w f h q = elim (Option-cases (Dict.get s k)) [
  | inl p ↦ ground (arith, h, q, p)
  | inr (old, p) ↦
      ground
        (arith, h, q, p, Dict.get-put s k w (record old { dirty_fields = []; row_version = v }))
]
step_survives s (noticed k n) w f h q = ground (arith, h)
step_survives s (rebases k v) w f h q = elim (Option-cases (Dict.get s k)) [
  | inl p ↦ ground (arith, h, q, p)
  | inr (old, p) ↦ ground (arith, h, q, p, Dict.get-put s k w (record old { row_version = v }))
]

-- A field that the user changed in a window stays among the window's unsaved edits through every
-- sequence of calls, on this window and on others, that holds no save of this window and no
-- confirmed discard of it.
pub edits_survive :
    (s : EditorWindows) (calls : List Call) (w f : String)
    → is_dirty s w f ≡ true
    → All (λ x. ends_edits w x ≡ false) calls
    → is_dirty (after_calls s calls) w f ≡ true
unfolding after_calls
edits_survive s [] w f h q = h
edits_survive s (x ∷ xs) w f h q =
    edits_survive (after_call s x) xs w f (step_survives s x w f h q.0) q.1
