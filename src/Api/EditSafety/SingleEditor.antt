-- ===== src/Api/EditSafety/SingleEditor.antt =====
-- src/mentorapp/api/edit_safety.py: no record has two editors.
use cbm_mentoring_app.Base.{
  String, ◌≡◌, ◌⊎◌, inl, inr, sym, ◌∙◌, none, some, List, [], ◌∷◌, ◌++◌, arith, string_eq, contains,
  if◌then◌else◌, Option-cases,
}
use cbm_mentoring_app.Base.Dict
use cbm_mentoring_app.Api.EditSafety.Windows.{
  Editor, EditorWindows, other_window, set_default, begin_edit, field_edited, request_close,
  discard_and_close, save_succeeded, notice_action, rebased,
}
use cbm_mentoring_app.Api.EditSafety.Editing.{
  Call, begins, edited, closes, discards, saved, noticed, rebases, after_call, after_calls,
}

-- Two windows never edit one record.
abbrev pub IsSingle : EditorWindows → Type 0
IsSingle s =
    (j k : String) (e f : Editor)
    → Dict.get s j ≡ some e
    → Dict.get s k ≡ some f
    → e.entity_type ≡ f.entity_type
    → e.record_id ≡ f.record_id
    → j ≡ k

other_window_lem :
    (s : EditorWindows) (w t r k : String) (e : Editor)
    → other_window s w t r ≡ none
    → Dict.get s k ≡ some e
    → e.entity_type ≡ t
    → e.record_id ≡ r
    → k ≡ w
unfolding other_window Dict.get
other_window_lem [] w t r k e h g p q = ground (arith, g)
other_window_lem ((i, x) ∷ s) w t r k e h g p q =
    ground (arith, h, g, p, q, other_window_lem s w t r k e)

-- The call is the window's Edit on the record of the editor.
abbrev Starts : Call → String → Editor → Type 0
Starts (begins k t r v) w e = (k ≡ w) × (t ≡ e.entity_type) × (r ≡ e.record_id)
Starts _ w e = ⊥

Starts-one : (x : Call) (j k : String) (e f : Editor) → Starts x j e → Starts x k f → j ≡ k
Starts-one (begins i t r v) j k e f a b = sym a.0 ∙ b.0
Starts-one (edited _ _) j k e f a b = absurd a
Starts-one (closes _) j k e f a b = absurd a
Starts-one (discards _) j k e f a b = absurd a
Starts-one (saved _ _) j k e f a b = absurd a
Starts-one (noticed _ _) j k e f a b = absurd a
Starts-one (rebases _ _) j k e f a b = absurd a

-- The editor of `w` after a call, from one with the same identity, or started for a free record.
abbrev Comes : EditorWindows → Call → String → Editor → Type 0
Comes s x w e =
    ((old : Editor) × (Dict.get s w ≡ some old)
      × (old.entity_type ≡ e.entity_type)
      × (old.record_id ≡ e.record_id))
    ⊎ Starts x w e × (Dict.get s w ≡ none) × (other_window s w e.entity_type e.record_id ≡ none)

step-Comes :
    (s : EditorWindows) (x : Call) (w : String) (e : Editor)
    → Dict.get (after_call s x) w ≡ some e
    → Comes s x w e
unfolding after_call begin_edit field_edited request_close discard_and_close save_succeeded
    notice_action rebased
step-Comes s (begins k t r v) w e h = elim (Option-cases (other_window s k t r)) [
  | inr (other, o) ↦ ground (arith, h, o)
  | inl free ↦ elim (Option-cases (Dict.get s k)) [
    | inl p ↦ ground (arith, h, free, p, Dict.get-put s k w (set_default none t r v))
    | inr (old, p) ↦ ground (arith, h, free, p, Dict.get-put s k w (set_default (some old) t r v))
  ]
]
step-Comes s (edited k g) w e h = elim (Option-cases (Dict.get s k)) [
  | inl p ↦ ground (arith, h, p)
  | inr (old, p) ↦ ground (
    arith,
    h,
    p,
    Dict.get-put s k w (record old {
      dirty_fields =
          if contains old.dirty_fields g then old.dirty_fields else old.dirty_fields ++ g ∷ [];
    }),
  )
]
step-Comes s (closes k) w e h = elim (Option-cases (Dict.get s k)) [
  | inl p ↦ ground (arith, h, p)
  | inr (old, p) ↦ ground (arith, h, p, Dict.get-remove s k w)
]
step-Comes s (discards k) w e h = elim (Option-cases (Dict.get s k)) [
  | inl p ↦ ground (arith, h, p)
  | inr (old, p) ↦ ground (arith, h, p, Dict.get-remove s k w)
]
step-Comes s (saved k v) w e h = elim (Option-cases (Dict.get s k)) [
  | inl p ↦ ground (arith, h, p)
  | inr (old, p) ↦
      ground (arith, h, p, Dict.get-put s k w (record old { dirty_fields = []; row_version = v }))
]
step-Comes s (noticed k n) w e h = ground (arith, h)
step-Comes s (rebases k v) w e h = elim (Option-cases (Dict.get s k)) [
  | inl p ↦ ground (arith, h, p)
  | inr (old, p) ↦ ground (arith, h, p, Dict.get-put s k w (record old { row_version = v }))
]

step-IsSingle : (s : EditorWindows) (x : Call) → IsSingle s → IsSingle (after_call s x)
step-IsSingle s x h j k e f gj gk p q = elim (step-Comes s x j e gj) [
  | inl (old_j, a, b, c) ↦ elim (step-Comes s x k f gk) [
    | inl (old_k, a', b', c') ↦
        h j k old_j old_k a a' (ground (arith, b, b', p)) (ground (arith, c, c', q))
    | inr (_, _, free) ↦
        other_window_lem s k f.entity_type f.record_id j old_j free a (b ∙ p) (c ∙ q)
  ]
  | inr (starts, _, free) ↦ elim (step-Comes s x k f gk) [
    | inl (old_k, a', b', c') ↦
        sym
          (other_window_lem s j e.entity_type e.record_id k old_k free a' (b' ∙ sym p) (c' ∙ sym q))
    | inr (starts', _, _) ↦ Starts-one x j k e f starts starts'
  ]
]

calls-IsSingle :
    (s : EditorWindows) (calls : List Call) → IsSingle s → IsSingle (after_calls s calls)
unfolding after_calls
calls-IsSingle s [] h = h
calls-IsSingle s (x ∷ xs) h = calls-IsSingle (after_call s x) xs (step-IsSingle s x h)

none-IsSingle : IsSingle []
unfolding Dict.get
none-IsSingle j k e f gj gk p q = ground (arith, gj)

-- After any sequence of calls on a session's windows, from none, two windows that both hold an
-- editor of one record are one window.
pub one_editor_per_record : (calls : List Call) → IsSingle (after_calls [] calls)
one_editor_per_record calls = calls-IsSingle [] calls none-IsSingle
