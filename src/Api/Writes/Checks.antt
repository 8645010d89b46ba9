-- ===== src/Api/Writes/Checks.antt =====
-- src/mentorapp/api/write_engine.py: what `_validate_changes` lets through, field by field.
use cbm_mentoring_app.Base.{
  String, ◌≡◌, ◌∙◌, refl, Option, none, some, List, [], ◌∷◌, ◌++◌, ◌==◌, string_eq, if◌then◌else◌,
  arith, All,
}
use cbm_mentoring_app.Base.Dict
use cbm_mentoring_app.Base.Dict.{Dict, IsDict}
use cbm_mentoring_app.Api.Writes.Rules.{Value, Parsers, ApiError}
use cbm_mentoring_app.Api.Writes.Changes.{
  Registry, Buckets, Verdict, refused, is_custom, is_builtin, place, verdict, validate_all,
}

-- What a bucket holds of a field after the payload, from the field's entry in the payload.
abbrev pub builtin_by : Option Value → Verdict → Option Value
builtin_by old (is_builtin v) = some v
builtin_by old _ = old

abbrev pub custom_by : Option Value → Verdict → Option Value
custom_by old (is_custom v) = some v
custom_by old _ = old

abbrev pub IsAccepted : Verdict → Type 0
IsAccepted (refused _) = ⊥
IsAccepted _ = Unit

place-builtin :
    (b : Buckets) (n : String) (v : Verdict) (name : String)
    → Dict.get (place b n v).builtin name
      ≡ (if name == n then builtin_by (Dict.get b.builtin n) v else Dict.get b.builtin name)
place-builtin b n (refused e) name = ground arith
place-builtin b n (is_custom v) name = ground arith
place-builtin b n (is_builtin v) name = Dict.get-put b.builtin n name v

place-custom :
    (b : Buckets) (n : String) (v : Verdict) (name : String)
    → Dict.get (place b n v).custom name
      ≡ (if name == n then custom_by (Dict.get b.custom n) v else Dict.get b.custom name)
place-custom b n (refused e) name = ground arith
place-custom b n (is_custom v) name = Dict.get-put b.custom n name v
place-custom b n (is_builtin v) name = ground arith

append_not_empty : (xs : List ApiError) (e : ApiError) → xs ++ e ∷ [] ≡ [] → ⊥
append_not_empty [] e h = ground (arith, h)
append_not_empty (x ∷ xs) e h = ground (arith, h)

place-errors :
    (b : Buckets) (n : String) (v : Verdict)
    → (place b n v).errors ≡ []
    → (b.errors ≡ []) × IsAccepted v
place-errors b n (refused e) h = absurd (append_not_empty b.errors e h)
place-errors b n (is_custom v) h = (h, tt)
place-errors b n (is_builtin v) h = (h, tt)

place-accepted :
    (b : Buckets) (n : String) (v : Verdict) → IsAccepted v → (place b n v).errors ≡ b.errors
place-accepted b n (refused e) h = absurd h
place-accepted b n (is_custom v) h = refl
place-accepted b n (is_builtin v) h = refl

module _ (p : Parsers) (registry : Registry) where
  abbrev pub by_entry :
      (Option Value → Verdict → Option Value) → Option Value → String → Option Value → Option Value
  by_entry f old name none = old
  by_entry f old name (some value) = f old (verdict p registry name value)

  pub builtin-validate_all :
      (b : Buckets) (changes : Dict String Value) (name : String)
      → IsDict changes
      → Dict.get (validate_all p registry b changes).builtin name
        ≡ by_entry builtin_by (Dict.get b.builtin name) name (Dict.get changes name)
  unfolding validate_all Dict.get
  builtin-validate_all b [] name h = refl
  builtin-validate_all b ((n, v) ∷ changes) name h = ground (
    arith,
    h,
    builtin-validate_all (place b n (verdict p registry n v)) changes name h.1,
    place-builtin b n (verdict p registry n v) name,
  )

  pub custom-validate_all :
      (b : Buckets) (changes : Dict String Value) (name : String)
      → IsDict changes
      → Dict.get (validate_all p registry b changes).custom name
        ≡ by_entry custom_by (Dict.get b.custom name) name (Dict.get changes name)
  unfolding validate_all Dict.get
  custom-validate_all b [] name h = refl
  custom-validate_all b ((n, v) ∷ changes) name h = ground (
    arith,
    h,
    custom-validate_all (place b n (verdict p registry n v)) changes name h.1,
    place-custom b n (verdict p registry n v) name,
  )

  abbrev pub AllAccepted : Dict String Value → Type 0
  AllAccepted = All (λ (n, v). IsAccepted (verdict p registry n v))

  -- No error is left out, and none is raised for an accepted field.
  pub errors-validate_all :
      (b : Buckets) (changes : Dict String Value)
      → (validate_all p registry b changes).errors ≡ []
      → (b.errors ≡ []) × AllAccepted changes
  unfolding validate_all
  errors-validate_all b [] h = (h, tt)
  errors-validate_all b ((n, v) ∷ changes) h =
      let (now, rest) = errors-validate_all (place b n (verdict p registry n v)) changes h in
      let (before, here) = place-errors b n (verdict p registry n v) now in (before, (here, rest))

  pub accepted-validate_all :
      (b : Buckets) (changes : Dict String Value)
      → AllAccepted changes
      → (validate_all p registry b changes).errors ≡ b.errors
  unfolding validate_all
  accepted-validate_all b [] h = refl
  accepted-validate_all b ((n, v) ∷ changes) h =
      accepted-validate_all (place b n (verdict p registry n v)) changes h.1
      ∙ place-accepted b n (verdict p registry n v) h.0
