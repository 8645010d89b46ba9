-- ===== src/Api/EditSafety/Examples.antt =====
-- src/mentorapp/api/edit_safety.py: two saves of one mentee, and two windows.
use cbm_mentoring_app.Base.{ℕ, String, ◌≡◌, refl, true, some, List, [], ◌∷◌, nat_eq, string_eq}
use cbm_mentoring_app.Base.Dict
use cbm_mentoring_app.Base.Dict.{Dict}
use cbm_mentoring_app.Api.EditSafety.Conflicts.{
  Resolution, resolve_concurrent_save_conflict, Settles, nothing_overwritten,
}
use cbm_mentoring_app.Api.EditSafety.Windows.{EditorWindows}
use cbm_mentoring_app.Api.EditSafety.Editing.{
  Call, begins, edited, closes, after_calls, is_dirty, edits_survive,
}
use cbm_mentoring_app.Api.EditSafety.SingleEditor.{IsSingle, one_editor_per_record}

-- Values as numbers: 0 is `None`.
abbrev typed : Dict String ℕ
typed = ("city", 5) ∷ ("phone", 7) ∷ []

abbrev loaded : Dict String ℕ
loaded = ("city", 1) ∷ ("phone", 2) ∷ ("rowVersion", 8) ∷ []

abbrev current : Dict String ℕ
current = ("city", 3) ∷ ("phone", 2) ∷ ("rowVersion", 9) ∷ []

nothing_overwritten_example :
    (r : Resolution ℕ) × (resolve_concurrent_save_conflict 0 (λ n. n) typed loaded current 1
      ≡ some r)
    × Settles 0 (λ n. n) loaded current "city" 5 9 r
unfolding Dict.get string_eq
nothing_overwritten_example =
    nothing_overwritten 0 (λ n. n) typed loaded current 1 "city" 5 9 (refl, (refl, tt)) refl refl

abbrev windows : EditorWindows
windows =
    (
      "w1",
      record {
        entity_type = "mentee";
        record_id = "m-1";
        row_version = 4;
        dirty_fields = "city" ∷ [];
      },
    )
    ∷ []

abbrev calls : List Call
calls =
    begins "w2" "mentee" "m-1" 4
    ∷ edited "w1" "phone"
    ∷ closes "w1"
    ∷ begins "w1" "mentee" "m-1" 5
    ∷ []

edits_survive_example : is_dirty (after_calls windows calls) "w1" "city" ≡ true
unfolding Dict.get string_eq
edits_survive_example =
    edits_survive windows calls "w1" "city" refl (refl, (refl, (refl, (refl, tt))))

one_editor_per_record_example : IsSingle (after_calls [] calls)
one_editor_per_record_example = one_editor_per_record calls
