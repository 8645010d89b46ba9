-- ===== src/Api/Writes/Patches.antt =====
-- src/mentorapp/api/write_engine.py: `partial_update`, what it promises of the record, the field
-- history, the change feed and its refusals.
use cbm_mentoring_app.Base.{
  ℕ, ◌+◌, String, ◌≡◌, ◌∙◌, refl, ap, inl, inr, ◌⊎◌, Bool, true, false, ◌||◌, Option, none, or_else,
  [], ◌∷◌, ◌++◌, nat_eq, if◌then◌else◌, any, arith, Bool-cases, string_eq,
}
use cbm_mentoring_app.Base.Dict
use cbm_mentoring_app.Base.Dict.{Dict, IsDict}
use cbm_mentoring_app.Base.Exec.{Result, ok}
use cbm_mentoring_app.Api.Writes.Rules.{Value, Parsers, value_eq}
use cbm_mentoring_app.Api.Writes.Changes.{
  Registry, Buckets, Verdict, refused, is_custom, is_builtin, empty_buckets, place, verdict,
  validate_all, validate_changes,
}
use cbm_mentoring_app.Api.Writes.Checks.{
  builtin_by, custom_by, by_entry, AllAccepted, builtin-validate_all, custom-validate_all,
  accepted-validate_all,
}
use cbm_mentoring_app.Api.Writes.Merges.{
  value_of, is_new, history_of, target-merge, merge_stays, touched-merge, history-merge,
}
use cbm_mentoring_app.Api.Writes.Updates.{
  Mapping, missing_attribute, mapped_update, written_id, EntityRecord, Added, nothing_added,
  WriteError, Flush, lands, updated, feed_entry, merging, history_rows, columns_after, custom_after,
  written_record, all_history, write_changes, valid_update, flushed_update, partial_update, bumped,
}

place-IsDict :
    (b : Buckets) (n : String) (v : Verdict)
    → IsDict b.builtin × IsDict b.custom
    → IsDict (place b n v).builtin × IsDict (place b n v).custom
place-IsDict b n (refused e) h = h
place-IsDict b n (is_custom v) h = (h.0, Dict.put-IsDict b.custom n v h.1)
place-IsDict b n (is_builtin v) h = (Dict.put-IsDict b.builtin n v h.0, h.1)

validate_all-IsDict :
    (p : Parsers) (registry : Registry) (b : Buckets) (changes : Dict String Value)
    → IsDict b.builtin × IsDict b.custom
    → IsDict (validate_all p registry b changes).builtin
      × IsDict (validate_all p registry b changes).custom
unfolding validate_all
validate_all-IsDict p registry b [] h = h
validate_all-IsDict p registry b ((n, v) ∷ changes) h =
    validate_all-IsDict p registry (place b n (verdict p registry n v)) changes
      (place-IsDict b n (verdict p registry n v) h)

-- What a patch leaves in a field: what the payload's entry stands for, else the old value.
abbrev pub patched :
    (Option Value → Verdict → Option Value)
    → Parsers
    → Registry
    → Dict String Value
    → Dict String Value
    → String
    → Value
patched f p registry changes bag name =
    or_else (by_entry p registry f none name (Dict.get changes name)) (value_of bag name)

-- Every field of both bags after the patch.
abbrev pub IsPatched : Parsers → Registry → Dict String Value → EntityRecord → EntityRecord → Type 0
IsPatched p registry changes r r' =
    ((name : String)
      → value_of r'.columns name ≡ patched builtin_by p registry changes r.columns name)
    × ((name : String)
        → value_of r'.custom_attributes name
          ≡ patched custom_by p registry changes r.custom_attributes name)

-- Whether the checked_payload fields say something new.
abbrev pub says_new : EntityRecord → Buckets → Bool
says_new r b = any (is_new r.columns) b.builtin || any (is_new r.custom_attributes) b.custom

module _ (m : Mapping) (p : Parsers) (registry : Registry) (r : EntityRecord)
    (changes : Dict String Value) (now : ℕ) (user : Option ℕ) where
  abbrev pub checked_payload : Buckets
  checked_payload = validate_changes p registry changes false

  -- What goes with a patch that writes: the new version, the stamp, the history and one feed entry.
  abbrev pub IsCommitted : EntityRecord → Added → Type 0
  IsCommitted r' added =
      (r'.row_version ≡ r.row_version + 1)
      × (r'.record_id ≡ written_id m r.record_id (Dict.get checked_payload.builtin m.key_field))
      × (r'.modified_by ≡ user)
      × (r'.modified_at ≡ now)
      × (added.history
          ≡ history_rows m r'.record_id now user (
              history_of registry r.columns checked_payload.builtin
              ++ history_of registry r.custom_attributes checked_payload.custom))
      × (added.feed ≡ feed_entry r' updated ∷ [])

  buckets-IsDict : IsDict checked_payload.builtin × IsDict checked_payload.custom
  unfolding validate_changes
  buckets-IsDict = validate_all-IsDict p registry empty_buckets changes (tt, tt)

  columns_patched :
      IsDict changes
      → (name : String)
      → value_of (columns_after registry r checked_payload).target name
        ≡ patched builtin_by p registry changes r.columns name
  unfolding validate_changes Dict.get
  columns_patched h name =
      target-merge registry (merging r.columns) checked_payload.builtin name buckets-IsDict.0
      ∙ ap (λ v. or_else v (value_of r.columns name))
          (builtin-validate_all p registry empty_buckets changes name h)

  custom_patched :
      IsDict changes
      → (name : String)
      → value_of (custom_after registry r checked_payload).target name
        ≡ patched custom_by p registry changes r.custom_attributes name
  unfolding validate_changes Dict.get
  custom_patched h name =
      target-merge registry (merging r.custom_attributes) checked_payload.custom name
        buckets-IsDict.1
      ∙ ap (λ v. or_else v (value_of r.custom_attributes name))
          (custom-validate_all p registry empty_buckets changes name h)

  touched_says_new :
      ((columns_after registry r checked_payload).touched
        || (custom_after registry r checked_payload).touched)
      ≡ says_new r checked_payload
  touched_says_new = ground (
    arith,
    touched-merge registry (merging r.columns) checked_payload.builtin buckets-IsDict.0,
    touched-merge registry (merging r.custom_attributes) checked_payload.custom buckets-IsDict.1,
  )

  -- The record and what goes with it, by whether there is something new.
  abbrev committing : Flush → Bool → Result WriteError EntityRecord × Added
  committing flush new =
      if new
      then flushed_update m r.record_id flush (written_record registry r checked_payload m now user)
          (all_history registry r checked_payload) now user
      else (ok r, nothing_added)

  write_changes-committing :
      (flush : Flush)
      → write_changes registry r checked_payload m now user flush
        ≡ committing flush (says_new r checked_payload)
  unfolding write_changes
  write_changes-committing flush = ap (λ t. committing flush t) touched_says_new

  history_written :
      history_rows m
        (written_record registry r checked_payload m now user).record_id
        now
        user
        (all_history registry r checked_payload)
      ≡ history_rows m (written_record registry r checked_payload m now user).record_id now user (
          history_of registry r.columns checked_payload.builtin
          ++ history_of registry r.custom_attributes checked_payload.custom)
  history_written =
      rw
        (
          history-merge registry (merging r.columns) checked_payload.builtin buckets-IsDict.0,
          history-merge registry (merging r.custom_attributes) checked_payload.custom
              buckets-IsDict.1,
        )
        refl

  untouched :
      says_new r checked_payload ≡ false
      → (columns_after registry r checked_payload ≡ merging r.columns)
        × (custom_after registry r checked_payload ≡ merging r.custom_attributes)
  untouched same = (
    merge_stays registry (merging r.columns) checked_payload.builtin
        (ground (arith, same, touched_says_new)),
    merge_stays registry (merging r.custom_attributes) checked_payload.custom
        (ground (arith, same, touched_says_new)),
  )

  valid_step :
      (row_version : ℕ) (flush : Flush)
      → r.deleted_at ≡ none
      → row_version ≡ r.row_version
      → partial_update m p registry r changes row_version now user flush
        ≡ valid_update m registry r checked_payload checked_payload.errors now user flush
  unfolding partial_update
  valid_step row_version flush live same = ground (arith, live, same)

  accepted_errors : AllAccepted p registry changes → checked_payload.errors ≡ []
  unfolding validate_changes
  accepted_errors h = accepted-validate_all p registry empty_buckets changes h

  landed :
      (row_version : ℕ) (flush : Flush)
      → r.deleted_at ≡ none
      → row_version ≡ r.row_version
      → AllAccepted p registry changes
      → missing_attribute m.attribute_names checked_payload.builtin ≡ none
      → partial_update m p registry r changes row_version now user flush
        ≡ committing flush (says_new r checked_payload)
  landed row_version flush live same all whole =
      valid_step row_version flush live same
      ∙ ap (λ es. valid_update m registry r checked_payload es now user flush) (accepted_errors all)
      ∙ ap (λ name. mapped_update m registry r checked_payload name now user flush) whole
      ∙ write_changes-committing flush

  pub partial_update-IsPatched :
      (row_version : ℕ)
      → IsDict changes
      → r.deleted_at ≡ none
      → row_version ≡ r.row_version
      → AllAccepted p registry changes
      → missing_attribute m.attribute_names checked_payload.builtin ≡ none
      → (r' : EntityRecord) × (added : Added) × (partial_update m p registry r changes row_version
            now user lands
          ≡ (ok r', added))
        × IsPatched p registry changes r r'
        × (((says_new r checked_payload ≡ true) × IsCommitted r' added)
            ⊎ ((says_new r checked_payload ≡ false) × (r' ≡ r) × (added ≡ nothing_added)))
  partial_update-IsPatched row_version h live same all whole =
      elim (Bool-cases (says_new r checked_payload)) [
        | inl new ↦ (
          bumped (written_record registry r checked_payload m now user),
          record {
            history =
                history_rows m (written_record registry r checked_payload m now user).record_id now
                  user (all_history registry r checked_payload);
            feed =
                feed_entry (bumped (written_record registry r checked_payload m now user)) updated
                ∷ [];
          },
          landed row_version lands live same all whole ∙ ap (committing lands) new,
          (columns_patched h, custom_patched h),
          inl (new, (refl, refl, refl, refl, history_written, refl)),
        )
        | inr old ↦ (
          r,
          nothing_added,
          landed row_version lands live same all whole ∙ ap (committing lands) old,
          (
            ground (arith, columns_patched h, untouched old),
            ground (arith, custom_patched h, untouched old),
          ),
          inr (old, refl, refl),
        )
      ]
