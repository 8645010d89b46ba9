-- ===== src/Api/Writes/Merges.antt =====
-- src/mentorapp/api/write_engine.py: the two loops of `partial_update` that write the changed fields
-- and note the tracked ones. A field that a bag does not hold reads as `None`.
use cbm_mentoring_app.Base.{
  append-nil, append_assoc, String, ◌≡◌, ◌∙◌, refl, Bool, true, false, ◌&&◌, ◌||◌, not, Option,
  none, some, or_else, List, [], ◌∷◌, ◌++◌, ◌==◌, string_eq, if◌then◌else◌, arith, any, keep, map,
  Bool-cases, inl, inr, ap, sym,
}
use cbm_mentoring_app.Base.Dict
use cbm_mentoring_app.Base.Dict.{Dict, IsDict}
use cbm_mentoring_app.Api.Writes.Rules.{Value, null, value_eq, SchemaRegistry}
use cbm_mentoring_app.Api.Writes.Changes.{Registry}

-- `(field_name, old_value, new_value)`
pub record Change : Type 0 where
  pub field_name : String
  pub old_value : Value
  pub new_value : Value

pub record Merge : Type 0 where
  pub target : Dict String Value
  pub history : List Change
  pub touched : Bool

abbrev pub value_of : Dict String Value → String → Value
value_of bag name = or_else (Dict.get bag name) null

abbrev tracked_by : Option SchemaRegistry → Bool
tracked_by none = false
tracked_by (some row) = row.history_tracked_flag

-- `registry[name].history_tracked_flag`, of a name that the validation let through.
abbrev pub is_tracked : Registry → String → Bool
is_tracked registry name = tracked_by (Dict.get registry name)

abbrev pub change_of : Dict String Value → String → Value → Change
change_of bag name value = record {
  field_name = name;
  old_value = value_of bag name;
  new_value = value;
}

abbrev write_field : Registry → Merge → String → Value → Merge
write_field registry m name value = record {
  target = Dict.put m.target name value;
  history =
      (if is_tracked registry name
        then m.history ++ change_of m.target name value ∷ []
        else m.history);
  touched = true;
}

unfoldable pub merge : Registry → Merge → Dict String Value → Merge
merge registry m [] = m
merge registry m ((name, value) ∷ changes) =
    merge registry
      (if value_of m.target name == value then m else write_field registry m name value) changes

-- An independent account: the changes that say something new, against the bag before.
abbrev pub is_new : Dict String Value → String × Value → Bool
is_new bag (name, value) = not (value_of bag name == value)

abbrev pub history_of : Registry → Dict String Value → Dict String Value → List Change
history_of registry bag changes =
    map (λ (name, value). change_of bag name value)
      (keep (λ (name, value). is_new bag (name, value) && is_tracked registry name) changes)

-- A write of a field that the other changes do not name is none of theirs.
any-put :
    (bag : Dict String Value) (n : String) (v : Value) (changes : Dict String Value)
    → Dict.get changes n ≡ none
    → any (is_new (Dict.put bag n v)) changes ≡ any (is_new bag) changes
unfolding Dict.get
any-put bag n v [] h = refl
any-put bag n v ((j, w) ∷ changes) h =
    ground (arith, h, Dict.get-put bag n j v, any-put bag n v changes)

history_of-put :
    (registry : Registry) (bag : Dict String Value) (n : String) (v : Value)
    (changes : Dict String Value)
    → Dict.get changes n ≡ none
    → history_of registry (Dict.put bag n v) changes ≡ history_of registry bag changes
unfolding Dict.get
history_of-put registry bag n v [] h = refl
history_of-put registry bag n v ((j, w) ∷ changes) h =
    ground (arith, h, Dict.get-put bag n j v, history_of-put registry bag n v changes)

module _ (registry : Registry) where
  touched_none : (m : Merge) → (merge registry m []).touched ≡ (m.touched || false)
  unfolding merge
  touched_none m = ground arith

  history_none :
      (m : Merge) → (merge registry m []).history ≡ m.history ++ history_of registry m.target []
  unfolding merge
  history_none m = sym (append-nil m.history)

  touched_stays :
      (m : Merge) (changes : Dict String Value)
      → m.touched ≡ true
      → (merge registry m changes).touched ≡ false
      → ⊥
  unfolding merge
  touched_stays m [] t q = ground (arith, t, q)
  touched_stays m ((n, v) ∷ changes) t q =
      touched_stays (if value_of m.target n == v then m else write_field registry m n v) changes
        (ground (arith, t)) q

  -- What the merge leaves in a field: the new value, where there is one.
  pub target-merge :
      (m : Merge) (changes : Dict String Value) (name : String)
      → IsDict changes
      → value_of (merge registry m changes).target name
        ≡ or_else (Dict.get changes name) (value_of m.target name)
  unfolding merge Dict.get
  target-merge m [] name h = refl
  target-merge m ((n, v) ∷ changes) name h = ground (
    arith,
    h,
    target-merge (if value_of m.target n == v then m else write_field registry m n v) changes name
        h.1,
    Dict.get-put m.target n name v,
  )

  merge_same :
      (m : Merge) (n : String) (v : Value) (changes : Dict String Value)
      → (value_of m.target n == v) ≡ true
      → merge registry m ((n, v) ∷ changes) ≡ merge registry m changes
  unfolding merge
  merge_same m n v changes same =
      ap (λ b. merge registry (if b then m else write_field registry m n v) changes) same

  merge_new :
      (m : Merge) (n : String) (v : Value) (changes : Dict String Value)
      → (value_of m.target n == v) ≡ false
      → merge registry m ((n, v) ∷ changes) ≡ merge registry (write_field registry m n v) changes
  unfolding merge
  merge_new m n v changes new =
      ap (λ b. merge registry (if b then m else write_field registry m n v) changes) new

  -- Nothing new leaves the bag and the history as they are.
  pub merge_stays :
      (m : Merge) (changes : Dict String Value)
      → (merge registry m changes).touched ≡ false
      → merge registry m changes ≡ m
  unfolding merge
  merge_stays m [] q = refl
  merge_stays m ((n, v) ∷ changes) q = elim (Bool-cases (value_of m.target n == v)) [
    | inl same ↦
        let step = merge_same m n v changes same in
        step ∙ merge_stays m changes (ap (λ r. r.touched) (sym step) ∙ q)
    | inr new ↦ absurd (
        touched_stays (write_field registry m n v) changes refl
          (ap (λ r. r.touched) (sym (merge_new m n v changes new)) ∙ q))
  ]

  pub touched-merge :
      (m : Merge) (changes : Dict String Value)
      → IsDict changes
      → (merge registry m changes).touched ≡ (m.touched || any (is_new m.target) changes)
  touched-merge m [] h = touched_none m
  touched-merge m ((n, v) ∷ changes) h = elim (Bool-cases (value_of m.target n == v)) [
    | inl same ↦
        ap (λ r. r.touched) (merge_same m n v changes same)
        ∙ ground (arith, same, touched-merge m changes h.1)
    | inr new ↦
        ap (λ r. r.touched) (merge_new m n v changes new)
        ∙ ground (arith, new, touched-merge (write_field registry m n v) changes h.1)
  ]

  -- The history gets exactly the tracked changes that say something new, in their order.
  pub history-merge :
      (m : Merge) (changes : Dict String Value)
      → IsDict changes
      → (merge registry m changes).history ≡ m.history ++ history_of registry m.target changes
  history-merge m [] h = history_none m
  history-merge m ((n, v) ∷ changes) h = elim (Bool-cases (value_of m.target n == v)) [
    | inl same ↦
        ap (λ r. r.history) (merge_same m n v changes same)
        ∙ ground (arith, same, history-merge m changes h.1)
    | inr new ↦
        ap (λ r. r.history) (merge_new m n v changes new)
        ∙ history-merge (write_field registry m n v) changes h.1
        ∙ ground (
          arith,
          new,
          history_of-put registry m.target n v changes h.0,
          append_assoc m.history (change_of m.target n v ∷ [])
              (history_of registry m.target changes),
        )
  ]
