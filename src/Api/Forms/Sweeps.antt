-- ===== src/Api/Forms/Sweeps.antt =====
-- src/mentorapp/api/form_validation.py: `sweep_before_save` against `_validate_changes` of the write
-- engine, on what the form sends.
use cbm_mentoring_app.Base.{
  String, ◌≡◌, ◌∙◌, refl, sym, ap, subst, Bool, true, false, Option, none, some, is_some, inl, inr,
  ◌⊎◌, List, [], ◌∷◌, map, string_eq, if◌then◌else◌, or_else, contains, All, arith, if_cases,
  Bool-cases, Option-cases, IsIn,
}
use cbm_mentoring_app.Base.Dict
use cbm_mentoring_app.Base.Dict.{Dict, IsDict}
use cbm_mentoring_app.Api.EditSafety.Conflicts.{structural_fields}
use cbm_mentoring_app.Api.Writes.Rules.{
  Value, null, SchemaRegistry, ApiError, field_error, read_only_field, Parsers, validate_value,
  native_builtin_value, truth, number, text, document, uuid, datetime, date,
}
use cbm_mentoring_app.Api.Writes.Changes.{
  Registry, empty_buckets, verdict, row_verdict, valid_verdict, native_verdict, refused, is_custom,
  validate_changes, required_errors, is_absent,
}
use cbm_mentoring_app.Api.Writes.Checks.{AllAccepted, IsAccepted, accepted-validate_all}
use cbm_mentoring_app.Api.Writes.Merges.{value_of}
use cbm_mentoring_app.Api.Forms.{
  FieldSettings, from_wire, settings_rule, normalized_input, sweep_ok, validate_on_exit, problems,
  sweep_before_save, kept_error,
}
use cbm_mentoring_app.Api.Forms.Agreement.{validate_same}

module _ (p : Parsers) where
  -- What the form sends of the values: a blank text goes as no value.
  abbrev pub sent_payload : Dict String Value → Dict String Value
  sent_payload = map (λ (name, value). (name, normalized_input value))

  -- A field that the form can send: shown, of a registry row under its name, not structural, and of
  -- a value that the column takes.
  abbrev pub IsSendable : Registry → List FieldSettings → String × Value → Type 0
  IsSendable registry fields (name, value) =
      (row : SchemaRegistry) × (Dict.get registry name ≡ some row)
      × (row.field_name ≡ name)
      × (contains structural_fields name ≡ false)
      × IsIn (from_wire row) fields
      × ((row.user_defined_flag ≡ true)
          ⊎ (is_some (native_builtin_value p row (normalized_input value)) ≡ true))

  kept_none :
      (o : Option ApiError) (errors : List ApiError)
      → kept_error o errors ≡ []
      → (o ≡ none) × (errors ≡ [])
  kept_none none errors h = (refl, h)
  kept_none (some e) errors h = ground (arith, h)

  -- A clean sweep has no problem in any shown field.
  problems-none :
      (fields : List FieldSettings) (values : Dict String Value) (f : FieldSettings)
      → problems p fields values ≡ []
      → IsIn f fields
      → validate_on_exit p f (value_of values f.field_name) ≡ none
  unfolding problems
  problems-none [] values f h i = absurd i
  problems-none (g ∷ fields) values f h (inl e) =
      subst (λ k. validate_on_exit p k (value_of values k.field_name) ≡ none) (sym e)
        (kept_none (validate_on_exit p g (value_of values g.field_name)) (problems p fields values)
          h).0
  problems-none (g ∷ fields) values f h (inr i) =
      problems-none fields values f
        (kept_none (validate_on_exit p g (value_of values g.field_name)) (problems p fields values)
          h).1
        i

  verdict_free :
      (registry : Registry) (name : String) (value : Value)
      → contains structural_fields name ≡ false
      → verdict p registry name value ≡ row_verdict p name (Dict.get registry name) value
  unfolding verdict
  verdict_free registry name value free =
      ap
        (λ b.
          if b
          then refused (field_error name read_only_field)
          else row_verdict p name (Dict.get registry name) value)
        free

  valid-IsAccepted :
      (row : SchemaRegistry) (value : Value)
      → (row.user_defined_flag ≡ true) ⊎ (is_some (native_builtin_value p row value) ≡ true)
      → IsAccepted (valid_verdict p row value none)
  valid-IsAccepted row value h =
      if_cases IsAccepted row.user_defined_flag (is_custom value)
        (native_verdict row.field_name (native_builtin_value p row value)) (λ _. tt)
        λ builtin. elim (Option-cases (native_builtin_value p row value)) [
          | inl missing ↦ absurd (ground (arith, h, builtin, missing))
          | inr (v, native) ↦
              subst (λ o. IsAccepted (native_verdict row.field_name o)) (sym native) tt
        ]

  sendable-IsAccepted :
      (registry : Registry) (fields : List FieldSettings) (values : Dict String Value)
      (name : String) (value : Value)
      → problems p fields values ≡ []
      → Dict.get values name ≡ some value
      → IsSendable registry fields (name, value)
      → IsAccepted (verdict p registry name (normalized_input value))
  unfolding validate_on_exit
  sendable-IsAccepted registry fields values name value clean at
        (row, found, named, free, shown, native) =
      let sent = normalized_input value in
      let on_exit = problems-none fields values (from_wire row) clean shown in
      let same_value = ap (λ n. value_of values n) named ∙ ap (λ o. or_else o null) at in
      let valid =
        sym (validate_same p row sent)
        ∙ ap (λ v. validate_value p (settings_rule (from_wire row)) (normalized_input v))
            (sym same_value)
        ∙ on_exit in
      let says =
        verdict_free registry name sent free
        ∙ ap (λ o. row_verdict p name o sent) found
        ∙ ap (valid_verdict p row sent) valid in
      subst IsAccepted (sym says) (valid-IsAccepted row sent native)

  abbrev is_null : Value → Bool
  is_null null = true
  is_null _ = false

  absent_null : (o : Option Value) → is_absent o ≡ is_null (or_else o null)
  absent_null none = refl
  absent_null (some null) = refl
  absent_null (some (truth _)) = refl
  absent_null (some (number _)) = refl
  absent_null (some (text _)) = refl
  absent_null (some (document _)) = refl
  absent_null (some (uuid _)) = refl
  absent_null (some (datetime _)) = refl
  absent_null (some (date _)) = refl

  value_of-sent_payload :
      (values : Dict String Value) (name : String)
      → value_of (sent_payload values) name ≡ normalized_input (value_of values name)
  unfolding Dict.get normalized_input
  value_of-sent_payload [] name = refl
  value_of-sent_payload ((n, v) ∷ values) name = ground (arith, value_of-sent_payload values name)

  required_null :
      (row : SchemaRegistry) (value : Value)
      → row.required_flag ≡ true
      → validate_value p (settings_rule (from_wire row)) value ≡ none
      → is_null value ≡ false
  unfolding validate_value
  required_null row null required valid = ground (arith, required, valid)
  required_null row (truth _) required valid = refl
  required_null row (number _) required valid = refl
  required_null row (text _) required valid = refl
  required_null row (document _) required valid = refl
  required_null row (uuid _) required valid = refl
  required_null row (datetime _) required valid = refl
  required_null row (date _) required valid = refl

  -- The form shows the row, or does not have to.
  abbrev pub IsCovered : List FieldSettings → String × SchemaRegistry → Type 0
  IsCovered fields (name, row) =
      (row.field_name ≡ name) × ((row.required_flag ≡ false) ⊎ IsIn (from_wire row) fields)

  pub required_errors_none :
      (registry : Registry) (fields : List FieldSettings) (values : Dict String Value)
      → problems p fields values ≡ []
      → All (IsCovered fields) registry
      → required_errors p registry (sent_payload values) ≡ []
  unfolding required_errors validate_on_exit
  required_errors_none [] fields values clean h = refl
  required_errors_none ((name, row) ∷ registry) fields values clean ((named, inl free), hs) =
      ground (arith, free, required_errors_none registry fields values clean hs)
  required_errors_none ((name, row) ∷ registry) fields values clean ((named, inr shown), hs) =
      let sent = normalized_input (value_of values name) in
      let valid =
        ap (λ n. validate_on_exit p (from_wire row) (value_of values n)) (sym named)
        ∙ problems-none fields values (from_wire row) clean shown in
      let rest = required_errors_none registry fields values clean hs in
      elim (Bool-cases row.required_flag) [
        | inl required ↦
            let there =
              absent_null (Dict.get (sent_payload values) name)
              ∙ ap is_null (value_of-sent_payload values name)
              ∙ required_null row sent required valid in
            ground (arith, required, there, rest)
        | inr free ↦ ground (arith, free, rest)
      ]

  pub sent-All :
      (registry : Registry) (fields : List FieldSettings) (values : Dict String Value)
      (entries : Dict String Value)
      → problems p fields values ≡ []
      → All (λ (name, value). Dict.get values name ≡ some value) entries
      → All (IsSendable registry fields) entries
      → AllAccepted p registry (sent_payload entries)
  sent-All registry fields values [] clean found h = tt
  sent-All registry fields values ((name, value) ∷ entries) clean found h = (
    sendable-IsAccepted registry fields values name value clean found.0 h.0,
    sent-All registry fields values entries clean found.1 h.1,
  )

  pub no_problems :
      (fields : List FieldSettings) (values : Dict String Value)
      → sweep_ok (sweep_before_save p fields values) ≡ true
      → problems p fields values ≡ []
  unfolding sweep_before_save
  no_problems fields values ok = ground (arith, ok)

  -- The form and the server agree: where the sweep of a form is clean, the write engine finds no
  -- error in what the form sends, for an update or a create. The conditions: every value is of a
  -- shown field of the registry, which is not structural and whose column takes the value, and the
  -- form shows every required row.
  pub errors-validate_changes :
      (registry : Registry) (fields : List FieldSettings) (values : Dict String Value)
      (creating : Bool)
      → IsDict values
      → All (IsSendable registry fields) values
      → All (IsCovered fields) registry
      → sweep_ok (sweep_before_save p fields values) ≡ true
      → (validate_changes p registry (sent_payload values) creating).errors ≡ []
  unfolding validate_changes
  errors-validate_changes registry fields values creating dict sendable covered ok =
      let clean = no_problems fields values ok in
      let accepted =
        accepted-validate_all p registry empty_buckets (sent_payload values)
          (sent-All registry fields values values clean (Dict.get-entries values dict) sendable) in
      let required = required_errors_none registry fields values clean covered in
      ground (arith, accepted, required)
