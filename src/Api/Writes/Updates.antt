-- ===== src/Api/Writes/Updates.antt =====
-- src/mentorapp/api/write_engine.py: `partial_update` and `restore_record`. What the database does
-- with the flush is an argument, and the version that the ORM steps at a flush is written out.
use cbm_mentoring_app.Base.{
  contains, string_eq, ℕ, ◌+◌, String, false, ◌||◌, Option, none, some, is_some, List, [], ◌∷◌,
  ◌++◌, ◌==◌, nat_eq, if◌then◌else◌, map,
}
use cbm_mentoring_app.Base.Dict
use cbm_mentoring_app.Base.Dict.{Dict}
use cbm_mentoring_app.Base.Exec.{Result, ok, err}
use cbm_mentoring_app.Api.Writes.Rules.{Value, ApiError, Parsers}
use cbm_mentoring_app.Api.Writes.Changes.{Registry, Buckets, validate_changes}
use cbm_mentoring_app.Api.Writes.Merges.{Change, Merge, merge}

-- A row of an entity; its built-in columns go by their wire names.
pub record EntityRecord : Type 0 where
  pub record_id : ℕ
  pub row_version : ℕ
  pub deleted_at : Option ℕ
  pub deleted_by : Option ℕ
  pub columns : Dict String Value
  pub custom_attributes : Dict String Value
  pub created_by : Option ℕ
  pub modified_by : Option ℕ
  pub modified_at : ℕ

pub record FieldChange : Type 0 where
  pub record_id : ℕ
  pub change : Change
  pub changed_at : ℕ
  pub changed_by : Option ℕ

pub data ChangeKind : Type 0 where
  created : ChangeKind
  updated : ChangeKind
  restored : ChangeKind

pub record FeedEntry : Type 0 where
  pub record_id : ℕ
  pub record_row_version : ℕ
  pub change_kind : ChangeKind

-- What a write adds in its transaction.
pub record Added : Type 0 where
  pub history : List FieldChange
  pub feed : List FeedEntry

abbrev pub nothing_added : Added
nothing_added = record { history = []; feed = [] }

pub data WriteError : Type 0 where
  not_found : ℕ → WriteError
  stale_row_version : EntityRecord → WriteError
  invalid : List ApiError → WriteError
  key_error : String → WriteError

-- The flush lands, or another transaction's write came first: then the row as it stands now.
pub data Flush : Type 0 where
  lands : Flush
  raced : Option EntityRecord → Flush

abbrev pub refuse : WriteError → Result WriteError EntityRecord × Added
refuse e = (err e, nothing_added)

abbrev pub feed_entry : EntityRecord → ChangeKind → FeedEntry
feed_entry r kind = record {
  record_id = r.record_id;
  record_row_version = r.row_version;
  change_kind = kind;
}

abbrev pub bumped : EntityRecord → EntityRecord
bumped r = record r { row_version = r.row_version + 1 }

-- After a lost race an update finds no record in a deleted one.
abbrev pub update_lost : ℕ → Option EntityRecord → WriteError
update_lost id none = not_found id
update_lost id (some current) =
    if is_some current.deleted_at then not_found id else stale_row_version current

abbrev pub restore_lost : ℕ → Option EntityRecord → WriteError
restore_lost id none = not_found id
restore_lost id (some current) = stale_row_version current

abbrev pub merging : Dict String Value → Merge
merging target = record { target = target; history = []; touched = false }

-- The entity's class: its primary key's wire name, what a value of that field is as the key, the
-- fields that are its attributes; and `jsonable_encoder`.
pub record Mapping : Type 0 where
  pub key_field : String
  pub id_of : Value → ℕ
  pub attribute_names : List String
  pub jsonable_encoder : Value → Value

abbrev pub encoded : Mapping → Change → Change
encoded m change = record change {
  old_value = m.jsonable_encoder change.old_value;
  new_value = m.jsonable_encoder change.new_value;
}

abbrev pub history_rows : Mapping → ℕ → ℕ → Option ℕ → List Change → List FieldChange
history_rows m id now user changes =
    map
      (λ change. record {
        record_id = id;
        change = encoded m change;
        changed_at = now;
        changed_by = user;
      })
      changes

-- `attribute_keys[name]`: the first name that is no attribute's, whose look-up raises.
unfoldable pub missing_attribute : List String → Dict String Value → Option String
missing_attribute names [] = none
missing_attribute names ((name, _) ∷ changes) =
    let rest = missing_attribute names changes in if contains names name then rest else some name

-- The key after the changes: a change may be of the primary key.
abbrev pub written_id : Mapping → ℕ → Option Value → ℕ
written_id m id none = id
written_id m id (some value) = m.id_of value

-- `id` is the record's key before, which a lost race brings back.
abbrev pub flushed_update :
    Mapping
    → ℕ
    → Flush
    → EntityRecord
    → List Change
    → ℕ
    → Option ℕ
    → Result WriteError EntityRecord × Added
flushed_update m id (raced current) r changes now user = refuse (update_lost id current)
flushed_update m id lands r changes now user =
    let r' = bumped r in
    (
      ok r',
      record {
        history = history_rows m r.record_id now user changes;
        feed = feed_entry r' updated ∷ [];
      },
    )

module _ (registry : Registry) (r : EntityRecord) (b : Buckets) where
  abbrev pub columns_after : Merge
  columns_after = merge registry (merging r.columns) b.builtin

  abbrev pub custom_after : Merge
  custom_after = merge registry (merging r.custom_attributes) b.custom

  abbrev pub written_record : Mapping → ℕ → Option ℕ → EntityRecord
  written_record m now user = record r {
    record_id = written_id m r.record_id (Dict.get b.builtin m.key_field);
    columns = columns_after.target;
    custom_attributes = custom_after.target;
    modified_by = user;
    modified_at = now;
  }

  abbrev pub all_history : List Change
  all_history = columns_after.history ++ custom_after.history

  -- The two merges, and the flush where one of them touched its bag.
  unfoldable pub write_changes :
      Mapping → ℕ → Option ℕ → Flush → Result WriteError EntityRecord × Added
  write_changes m now user flush =
      if columns_after.touched || custom_after.touched
      then flushed_update m r.record_id flush (written_record m now user) all_history now user
      else (ok r, nothing_added)

abbrev pub mapped_update :
    Mapping
    → Registry
    → EntityRecord
    → Buckets
    → Option String
    → ℕ
    → Option ℕ
    → Flush
    → Result WriteError EntityRecord × Added
mapped_update m registry r b none now user flush = write_changes registry r b m now user flush
mapped_update m registry r b (some name) now user flush = refuse (key_error name)

abbrev pub valid_update :
    Mapping
    → Registry
    → EntityRecord
    → Buckets
    → List ApiError
    → ℕ
    → Option ℕ
    → Flush
    → Result WriteError EntityRecord × Added
valid_update m registry r b [] now user flush =
    mapped_update m registry r b (missing_attribute m.attribute_names b.builtin) now user flush
valid_update m registry r b (e ∷ es) now user flush = refuse (invalid (e ∷ es))

-- The clock is read for `modified_at` and for the history: one moment here.
unfoldable pub partial_update :
    Mapping
    → Parsers
    → Registry
    → EntityRecord
    → Dict String Value
    → ℕ
    → ℕ
    → Option ℕ
    → Flush
    → Result WriteError EntityRecord × Added
partial_update m p registry r changes row_version now user flush =
    let b = validate_changes p registry changes false in
    let fresh = valid_update m registry r b b.errors now user flush in
    if is_some r.deleted_at
    then refuse (not_found r.record_id)
    else if row_version == r.row_version
    then fresh
    else refuse (stale_row_version r)

abbrev pub flushed_restore : Flush → EntityRecord → Result WriteError EntityRecord × Added
flushed_restore (raced current) r = refuse (restore_lost r.record_id current)
flushed_restore lands r =
    let r' = bumped r in (ok r', record { history = []; feed = feed_entry r' restored ∷ [] })

abbrev pub restore_deleted :
    Option ℕ → EntityRecord → ℕ → ℕ → Option ℕ → Flush → Result WriteError EntityRecord × Added
restore_deleted none r row_version now user flush = (ok r, nothing_added)
restore_deleted (some _) r row_version now user flush =
    let live = record r {
      deleted_at = none;
      deleted_by = none;
      modified_by = user;
      modified_at = now;
    } in
    let back = flushed_restore flush live in
    if row_version == r.row_version then back else refuse (stale_row_version r)

unfoldable pub restore_record :
    EntityRecord → ℕ → ℕ → Option ℕ → Flush → Result WriteError EntityRecord × Added
restore_record r row_version now user flush =
    restore_deleted r.deleted_at r row_version now user flush
