-- ===== src/Api/Writes/Restores.antt =====
-- src/mentorapp/api/write_engine.py: `restore_record`, each of its outcomes.
use cbm_mentoring_app.Base.{
  ℕ, ◌+◌, ◌≡◌, ◌≢◌, refl, sym, inl, inr, ◌⊎◌, subst, Option-cases, Option, none, some, [], ◌∷◌,
  ◌==◌, nat_eq, if◌then◌else◌, arith, if_cases,
}
use cbm_mentoring_app.Base.Exec.{Result, ok, err}
use cbm_mentoring_app.Api.Writes.Refused.{IsLost}
use cbm_mentoring_app.Api.Writes.Updates.{
  key_error, EntityRecord, Added, nothing_added, WriteError, not_found, stale_row_version, invalid,
  Flush, lands, raced, refuse, restored, feed_entry, restore_record, flushed_restore,
  restore_deleted,
}

-- What a restore gives: the record back as it was, live and a version on, with one feed entry; or
-- the live record untouched; or a refusal that adds nothing.
abbrev pub IsRestored : EntityRecord → ℕ → ℕ → Option ℕ → EntityRecord × Added → Type 0
IsRestored r row_version now user (r', added) =
    (row_version ≡ r.row_version)
    × (r' ≡ record r {
      row_version = r.row_version + 1;
      deleted_at = none;
      deleted_by = none;
      modified_by = user;
      modified_at = now;
    })
    × (added.history ≡ [])
    × (added.feed ≡ feed_entry r' restored ∷ [])

abbrev pub RestoreReason : EntityRecord → ℕ → Flush → WriteError → Type 0
RestoreReason r row_version flush (not_found id) =
    (row_version ≡ r.row_version) × (id ≡ r.record_id) × IsLost flush (λ current. current ≡ none)
RestoreReason r row_version flush (stale_row_version current) =
    ((row_version ≢ r.row_version) × (current ≡ r))
    ⊎ ((row_version ≡ r.row_version) × IsLost flush (λ now. now ≡ some current))
RestoreReason r row_version flush (invalid es) = ⊥
RestoreReason r row_version flush (key_error name) = ⊥

abbrev pub RestoreOutcome :
    EntityRecord → ℕ → ℕ → Option ℕ → Flush → Result WriteError EntityRecord × Added → Type 0
RestoreOutcome r row_version now user flush (ok r', added) =
    ((r.deleted_at ≡ none) × (r' ≡ r) × (added ≡ nothing_added))
    ⊎ ((flush ≡ lands) × IsRestored r row_version now user (r', added))
RestoreOutcome r row_version now user flush (err e, added) =
    (r.deleted_at ≢ none) × (added ≡ nothing_added) × RestoreReason r row_version flush e

module _ (row_version now : ℕ) (user : Option ℕ) where
  abbrev back_live : EntityRecord → EntityRecord
  back_live r = record r {
    deleted_at = none;
    deleted_by = none;
    modified_by = user;
    modified_at = now;
  }

  flushed_outcome :
      (flush : Flush) (r : EntityRecord)
      → r.deleted_at ≢ none
      → row_version ≡ r.row_version
      → RestoreOutcome r row_version now user flush (flushed_restore flush (back_live r))
  flushed_outcome lands r gone same = inr (refl, (same, refl, refl, refl))
  flushed_outcome (raced none) r gone same = (gone, refl, (same, refl, refl))
  flushed_outcome (raced (some current)) r gone same = (gone, refl, inr (same, refl))

  deleted_outcome :
      (flush : Flush) (r : EntityRecord)
      → r.deleted_at ≢ none
      → RestoreOutcome r row_version now user flush (
          if row_version == r.row_version
          then flushed_restore flush (back_live r)
          else refuse (stale_row_version r))
  deleted_outcome flush r gone =
      if_cases (RestoreOutcome r row_version now user flush) (row_version == r.row_version)
        (flushed_restore flush (back_live r)) (refuse (stale_row_version r))
        (λ same. flushed_outcome flush r gone (ground (arith, same)))
        (λ stale. (gone, refl, inl (ground (arith, stale), refl)))

  -- A restore leaves a live record as it is. A deleted one comes back by its own version when the
  -- flush lands: with its fields as they were, one version on, stamped, and with one feed entry and
  -- no history. Every refusal is of a deleted record, adds nothing, and is stale on another version,
  -- or reports what a lost race left.
  pub restore_record_lem :
      (flush : Flush) (r : EntityRecord)
      → RestoreOutcome r row_version now user flush (restore_record r row_version now user flush)
  unfolding restore_record
  restore_record_lem flush r = elim (Option-cases r.deleted_at) [
    | inl live ↦
        subst
          (λ d.
            RestoreOutcome r row_version now user flush
              (restore_deleted d r row_version now user flush))
          (sym live) (inl (live, refl, refl))
    | inr (at, gone) ↦
        subst
          (λ d.
            RestoreOutcome r row_version now user flush
              (restore_deleted d r row_version now user flush))
          (sym gone) (deleted_outcome flush r (λ none_at. ground (arith, gone, none_at)))
  ]
