-- ===== src/Api/FieldEdit/Examples.antt =====
-- src/mentorapp/api/field_edit.py: a mentee's city, edited in a window of its own.
use cbm_mentoring_app.Base.{
  ℕ, String, ◌≡◌, ◌≢◌, refl, true, none, some, List, [], ◌∷◌, nat_eq, string_eq,
}
use cbm_mentoring_app.Base.Dict
use cbm_mentoring_app.Base.Dict.{Dict}
use cbm_mentoring_app.Api.FieldEdit.{
  identified, FieldEditor, Wire, other_editor, open_field, edit_value,
}
use cbm_mentoring_app.Api.FieldEdit.Calls.{Call, opens, types, after_call, after_calls}
use cbm_mentoring_app.Api.FieldEdit.Conflicted.{Saves, Survives, field_edits}

-- Values as numbers: 0 is `None`.
abbrev numbers : Wire ℕ
numbers = record { null = 0; int = λ n. n; str = λ _. "m-1"; of_number = λ n. n }

abbrev mentee : Dict String ℕ
mentee = ("menteeID", 1) ∷ ("city", 3) ∷ ("rowVersion", 8) ∷ []

abbrev newer : Dict String ℕ
newer = ("menteeID", 1) ∷ ("city", 4) ∷ ("rowVersion", 9) ∷ []

abbrev calls : List (Call ℕ)
calls = opens "w1" "mentee" "city" mentee none ∷ types "w1" 5 ∷ []

abbrev city : FieldEditor ℕ
city = record {
  identity = identified "mentee" "m-1" "city";
  loaded_record = mentee;
  value = 5;
  dirty = true;
}

city_open : Dict.get (after_calls numbers [] calls) "w1" ≡ some city
unfolding after_calls after_call open_field edit_value other_editor Dict.get Dict.put string_eq
    nat_eq
city_open = refl

newer_version : Dict.get newer "rowVersion" ≡ some 9
unfolding Dict.get string_eq
newer_version = refl

field_edits_example :
    ¬ (
      (k : String) × (other : FieldEditor ℕ) × (Dict.get (after_calls numbers [] calls) k
        ≡ some other)
      × (other.identity ≡ city.identity)
      × (k ≢ "w1"))
    × Saves numbers (after_calls numbers [] calls) "w1" city
    × Survives numbers (after_calls numbers [] calls) "w1" city newer 9 1
field_edits_example = field_edits numbers calls "w1" city newer 9 1 city_open newer_version
