-- ===== src/Api/Writes/Duplicates.antt =====
-- src/mentorapp/api/write_engine.py: `create_record`, its outcomes and what the duplicate check lets
-- through.
use cbm_mentoring_app.Api.Writes.Doubles.{IsDoubled, hit-IsDoubled, IsDoubled-hit}
use cbm_mentoring_app.Base.{
  none, ℕ, String, ◌≡◌, ◌≢◌, ◌∙◌, refl, sym, ap, inl, inr, ◌⊎◌, Bool, true, false, ◌&&◌, not,
  Option, List, [], ◌∷◌, nat_eq, string_eq, if◌then◌else◌, arith, if_cases, Bool-cases,
}
use cbm_mentoring_app.Base.Dict.{Dict}
use cbm_mentoring_app.Base.Exec.{Result, ok, err}
use cbm_mentoring_app.Api.Writes.Rules.{Value, ApiError, Parsers}
use cbm_mentoring_app.Api.Writes.Changes.{Registry, Buckets, validate_changes}
use cbm_mentoring_app.Api.Writes.Updates.{FeedEntry, EntityRecord, created, feed_entry}
use cbm_mentoring_app.Api.Writes.Matching.{
  TextMethods, MatchError, Similar, find_similar_records, sorted_rules,
}
use cbm_mentoring_app.Api.Writes.Creates.{
  DuplicateOverride, CreateError, invalid_values, duplicates, rule_fault, Birth, no_birth,
  has_candidates, candidates_of, new_record, override_row, refused_create, create_despite,
  create_unless_similar, create_valid, create_record,
}
use cbm_mentoring_app.Api.Writes.Found.{
  OfFound, IsFinding, has_duplicate, hit_names, find_similar_records-IsFinding,
}

module _ (methods : TextMethods) (p : Parsers) (columns : List String) (values : Dict String Value)
    (table : List EntityRecord) where
  module _ (id now : ℕ) (user : Option ℕ) (override : Bool) (reason : Option String)
      (registry : Registry) where
    abbrev payload : Buckets
    payload = validate_changes p registry values true

    -- The record of a create: the fresh key, version 1, live, with the values the payload has.
    abbrev pub IsNewRecord : EntityRecord → Type 0
    IsNewRecord r =
        (r.record_id ≡ id)
        × (r.row_version ≡ 1)
        × (r.deleted_at ≡ none)
        × (r.columns ≡ payload.builtin)
        × (r.custom_attributes ≡ payload.custom)
        × (r.created_by ≡ user)
        × (r.modified_by ≡ user)
        × (r.modified_at ≡ now)

    abbrev pub IsCreation : List FeedEntry → Type 0
    IsCreation feed =
        (entry : FeedEntry) × (feed ≡ entry ∷ [])
        × (entry.record_id ≡ id)
        × (entry.record_row_version ≡ 1)
        × (entry.change_kind ≡ created)

    -- The one note of an override, with the reason given and the names of the rules matched.
    abbrev pub IsNoted : List DuplicateOverride → Type 0
    IsNoted overrides =
        (note : DuplicateOverride) × (overrides ≡ note ∷ [])
        × (note.record_id ≡ id)
        × (note.override_reason ≡ reason)
        × (note.created_by ≡ user)
        × (note.matched_rule_names
            ≡ hit_names methods p columns values table (sorted_rules registry))

    abbrev pub Doubled : Type 0
    Doubled = IsDoubled methods p columns values table registry

    doubled : has_duplicate methods p columns values table registry ≡ true → Doubled
    doubled = hit-IsDoubled methods p columns values table registry

    not_doubled : has_duplicate methods p columns values table registry ≡ false → ¬ Doubled
    not_doubled none_hit found =
        let hit = IsDoubled-hit methods p columns values table registry found in
        ground (arith, hit, none_hit)

    -- What each outcome of a create says of the values and of the records that there are.
    abbrev pub CreateOutcome : Result CreateError EntityRecord × Birth → Type 0
    CreateOutcome (err (invalid_values es), birth) =
        (birth ≡ no_birth) × (es ≡ payload.errors) × (es ≢ [])
    CreateOutcome (err (duplicates rs), birth) =
        (birth ≡ no_birth) × (payload.errors ≡ []) × Doubled × (override ≡ false)
    CreateOutcome (err (rule_fault e), birth) = (birth ≡ no_birth) × (payload.errors ≡ [])
    CreateOutcome (ok r, birth) =
        (payload.errors ≡ [])
        × IsNewRecord r
        × IsCreation birth.feed
        × ((¬ Doubled × (birth.overrides ≡ []))
            ⊎ (Doubled × (override ≡ true) × IsNoted birth.overrides))

    new_record-IsNewRecord : IsNewRecord (new_record id now user payload)
    new_record-IsNewRecord = (refl, refl, refl, refl, refl, refl, refl, refl)

    created-IsCreation : IsCreation (feed_entry (new_record id now user payload) created ∷ [])
    created-IsCreation =
        (feed_entry (new_record id now user payload) created, refl, refl, refl, refl)

    despite_outcome :
        (similar : Similar)
        → payload.errors ≡ []
        → IsFinding methods p columns values table registry similar
        → (has_candidates similar && not override) ≡ false
        → CreateOutcome (create_despite id now user override reason payload similar)
    despite_outcome similar valid (hits, names) free = elim (Bool-cases (has_candidates similar)) [
      | inl some_hit ↦ (
        valid,
        new_record-IsNewRecord,
        created-IsCreation,
        inr (
          doubled (sym hits ∙ some_hit),
          ground (arith, some_hit, free),
          (
            override_row id user reason similar,
            ap (λ b. if b then override_row id user reason similar ∷ [] else []) some_hit,
            refl,
            refl,
            refl,
            names,
          ),
        ),
      )
      | inr no_hit ↦ (
        valid,
        new_record-IsNewRecord,
        created-IsCreation,
        inl (
          not_doubled (sym hits ∙ no_hit),
          ap (λ b. if b then override_row id user reason similar ∷ [] else []) no_hit,
        ),
      )
    ]

    found_outcome :
        (found : Result MatchError Similar)
        → payload.errors ≡ []
        → OfFound (IsFinding methods p columns values table registry) found
        → CreateOutcome (create_unless_similar id now user override reason payload found)
    found_outcome (err e) valid h = (refl, valid)
    found_outcome (ok similar) valid h =
        if_cases CreateOutcome (has_candidates similar && not override)
          (refused_create (duplicates (candidates_of similar)))
          (create_despite id now user override reason payload similar)
          (λ blocked.
            (refl, valid, doubled (ground (arith, blocked, h.0)), ground (arith, blocked)))
          (λ free. despite_outcome similar valid h free)

    valid_outcome :
        (es : List ApiError) (found : Result MatchError Similar)
        → es ≡ payload.errors
        → OfFound (IsFinding methods p columns values table registry) found
        → CreateOutcome (create_valid id now user override reason payload es found)
    valid_outcome [] found same h = found_outcome found (sym same) h
    valid_outcome (e ∷ es) found same h = (refl, same, λ nil. ground (arith, nil))

    pub create_record_lem :
        CreateOutcome
          (create_record id now user override reason methods p columns registry table values)
    unfolding create_record
    create_record_lem =
        valid_outcome payload.errors
          (find_similar_records methods p columns values table false registry) refl
          (find_similar_records-IsFinding methods p columns values table registry)
