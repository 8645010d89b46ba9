-- ===== src/Api/Writes/Refused.antt =====
-- src/mentorapp/api/write_engine.py: the ways in which `partial_update` refuses.
use cbm_mentoring_app.Base.{
  sym, ℕ, String, ◌≡◌, ◌≢◌, refl, inl, inr, ◌⊎◌, true, false, ◌||◌, Option, none, some, is_some,
  List, [], ◌∷◌, ◌==◌, nat_eq, if◌then◌else◌, arith, Bool-cases, if_cases,
}
use cbm_mentoring_app.Base.Dict.{Dict}
use cbm_mentoring_app.Base.Exec.{Result, ok, err}
use cbm_mentoring_app.Api.Writes.Rules.{Value, ApiError, Parsers}
use cbm_mentoring_app.Api.Writes.Changes.{Registry, Buckets, validate_changes}
use cbm_mentoring_app.Api.Writes.Merges.{Change}
use cbm_mentoring_app.Api.Writes.Updates.{
  Mapping, missing_attribute, mapped_update, key_error, EntityRecord, Added, nothing_added,
  WriteError, not_found, stale_row_version, invalid, Flush, lands, raced, columns_after,
  custom_after, written_record, all_history, write_changes, valid_update, flushed_update,
  partial_update, update_lost, refuse,
}

-- The flush lost to a write that left this row, or none.
abbrev pub IsLost : Flush → (Option EntityRecord → Type 0) → Type 0
IsLost lands P = ⊥
IsLost (raced current) P = P current

abbrev pub IsGone : Option EntityRecord → Type 0
IsGone none = Unit
IsGone (some current) = is_some current.deleted_at ≡ true

abbrev pub IsCurrent : EntityRecord → Option EntityRecord → Type 0
IsCurrent r none = ⊥
IsCurrent r (some current) = (current ≡ r) × (is_some current.deleted_at ≡ false)

-- What each refusal of a patch says of the record, the payload's errors and the flush.
abbrev pub UpdateReason :
    EntityRecord → List ApiError → Option String → ℕ → Flush → WriteError → Type 0
UpdateReason r errors missing row_version flush (not_found id) =
    (id ≡ r.record_id) × ((is_some r.deleted_at ≡ true) ⊎ IsLost flush IsGone)
UpdateReason r errors missing row_version flush (stale_row_version current) =
    (is_some r.deleted_at ≡ false)
    × (((row_version ≢ r.row_version) × (current ≡ r))
        ⊎ ((row_version ≡ r.row_version) × IsLost flush (IsCurrent current)))
UpdateReason r errors missing row_version flush (invalid es) =
    (is_some r.deleted_at ≡ false) × (row_version ≡ r.row_version) × (es ≡ errors) × (es ≢ [])
UpdateReason r errors missing row_version flush (key_error name) =
    (is_some r.deleted_at ≡ false)
    × (row_version ≡ r.row_version)
    × (errors ≡ [])
    × (missing ≡ some name)

-- A patch that wrote won the race.
abbrev pub IsWon : Flush → EntityRecord → EntityRecord × Added → Type 0
IsWon lands r result = Unit
IsWon (raced current) r result = result ≡ (r, nothing_added)

-- A refusal adds nothing and has its reason. A patch that is let through is of a live record, by its
-- version, and without a problem; and of no effect where the race was lost.
abbrev pub IsDecided :
    EntityRecord
    → List ApiError
    → Option String
    → ℕ
    → Flush
    → Result WriteError EntityRecord × Added
    → Type 0
IsDecided r errors missing row_version flush (ok r', added) =
    (is_some r.deleted_at ≡ false)
    × (row_version ≡ r.row_version)
    × (errors ≡ [])
    × (missing ≡ none)
    × IsWon flush r (r', added)
IsDecided r errors missing row_version flush (err e, added) =
    (added ≡ nothing_added) × UpdateReason r errors missing row_version flush e

module _ (m : Mapping) (p : Parsers) (registry : Registry) (r : EntityRecord)
    (changes : Dict String Value) (row_version now : ℕ) (user : Option ℕ) where
  abbrev payload : Buckets
  payload = validate_changes p registry changes false

  abbrev missing : Option String
  missing = missing_attribute m.attribute_names payload.builtin

  abbrev Is : Flush → Result WriteError EntityRecord × Added → Type 0
  Is = IsDecided r payload.errors missing row_version

  abbrev Reason : Flush → WriteError → Type 0
  Reason = UpdateReason r payload.errors missing row_version

  abbrev fresh : Flush → Result WriteError EntityRecord × Added
  fresh flush = valid_update m registry r payload payload.errors now user flush

  lost-Reason :
      (current : Option EntityRecord)
      → is_some r.deleted_at ≡ false
      → row_version ≡ r.row_version
      → Reason (raced current) (update_lost r.record_id current)
  lost-Reason none live same = (refl, inr tt)
  lost-Reason (some current) live same = elim (Bool-cases (is_some current.deleted_at)) [
    | inl gone ↦ rw gone (refl, inr gone)
    | inr there ↦ rw there (live, inr (same, (refl, there)))
  ]

  flushed-Reason :
      (flush : Flush) (w : EntityRecord)
      → payload.errors ≡ []
      → missing ≡ none
      → is_some r.deleted_at ≡ false
      → row_version ≡ r.row_version
      → (changed : List Change) → Is flush (flushed_update m r.record_id flush w changed now user)
  flushed-Reason lands w clean whole live same changed = (live, same, clean, whole, tt)
  flushed-Reason (raced current) w clean whole live same changed =
      (refl, lost-Reason current live same)

  kept-Won : (flush : Flush) → IsWon flush r (r, nothing_added)
  kept-Won lands = tt
  kept-Won (raced current) = refl

  write-Reason :
      (flush : Flush)
      → payload.errors ≡ []
      → missing ≡ none
      → is_some r.deleted_at ≡ false
      → row_version ≡ r.row_version
      → Is flush (write_changes registry r payload m now user flush)
  unfolding write_changes
  write-Reason flush clean whole live same =
      if_cases (Is flush)
        ((columns_after registry r payload).touched || (custom_after registry r payload).touched)
        (flushed_update m r.record_id flush (written_record registry r payload m now user)
          (all_history registry r payload) now user)
        (ok r, nothing_added)
        (λ _.
          flushed-Reason flush (written_record registry r payload m now user) clean whole live same
            (all_history registry r payload))
        (λ _. (live, same, clean, whole, kept-Won flush))

  mapped-Reason :
      (flush : Flush) (name : Option String)
      → missing ≡ name
      → payload.errors ≡ []
      → is_some r.deleted_at ≡ false
      → row_version ≡ r.row_version
      → Is flush (mapped_update m registry r payload name now user flush)
  mapped-Reason flush none e clean live same = write-Reason flush clean e live same
  mapped-Reason flush (some name) e clean live same = (refl, (live, same, clean, e))

  valid-Reason :
      (flush : Flush) (es : List ApiError)
      → es ≡ payload.errors
      → is_some r.deleted_at ≡ false
      → row_version ≡ r.row_version
      → Is flush (valid_update m registry r payload es now user flush)
  valid-Reason flush [] h live same = mapped-Reason flush missing refl (sym h) live same
  valid-Reason flush (e ∷ es) h live same = (refl, (live, same, h, λ nil. ground (arith, nil)))

  -- When a patch is refused, and when not. One that is let through is of a live record by its current
  -- version, its payload has no problem and names only
  -- attributes of the entity among the built-in fields, and where its flush lost a race it had nothing to write. One
  -- that is refused adds nothing to the history and the feed. It finds no record where this
  -- one is deleted, or is gone or deleted after a lost race; it is stale where it names another
  -- version, and carries this record, or where the race was lost to a live one, which it carries;
  -- and it is invalid with all the errors of the payload, where there are any; or it is the key
  -- error of a built-in field that is no attribute.
  pub partial_update-IsDecided :
      (flush : Flush) → Is flush (partial_update m p registry r changes row_version now user flush)
  unfolding partial_update
  partial_update-IsDecided flush =
      if_cases (Is flush) (is_some r.deleted_at) (refuse (not_found r.record_id))
        (if row_version == r.row_version then fresh flush else refuse (stale_row_version r))
        (λ gone. (refl, (refl, inl gone)))
        λ live.
          if_cases (Is flush) (row_version == r.row_version) (fresh flush)
            (refuse (stale_row_version r))
            (λ same. valid-Reason flush payload.errors refl live (ground (arith, same)))
            (λ stale. (refl, (live, inl (ground (arith, stale), refl))))
