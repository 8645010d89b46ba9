-- ===== src/Api/Writes/Creates.antt =====
-- src/mentorapp/api/write_engine.py: `create_record`.
use cbm_mentoring_app.Base.{
  ℕ, String, Bool, true, false, ◌&&◌, not, Option, none, List, [], ◌∷◌, map, nat_eq, string_eq,
  if◌then◌else◌,
}
use cbm_mentoring_app.Base.Dict.{Dict}
use cbm_mentoring_app.Base.Exec.{Result, ok, err}
use cbm_mentoring_app.Api.Writes.Rules.{Value, ApiError, Parsers}
use cbm_mentoring_app.Api.Writes.Changes.{Registry, Buckets, validate_changes}
use cbm_mentoring_app.Api.Writes.Updates.{EntityRecord, FeedEntry, created, feed_entry}
use cbm_mentoring_app.Api.Writes.Matching.{TextMethods, MatchError, Similar, find_similar_records}

pub record DuplicateOverride : Type 0 where
  pub record_id : ℕ
  pub matched_rule_names : List String
  pub candidate_record_ids : List ℕ
  pub override_reason : Option String
  pub created_by : Option ℕ

pub data CreateError : Type 0 where
  invalid_values : List ApiError → CreateError
  duplicates : List EntityRecord → CreateError
  rule_fault : MatchError → CreateError

-- What a create adds beside the record.
pub record Birth : Type 0 where
  pub overrides : List DuplicateOverride
  pub feed : List FeedEntry

abbrev pub no_birth : Birth
no_birth = record { overrides = []; feed = [] }

abbrev pub candidates_of : Similar → List EntityRecord
candidates_of similar = map (λ (_, r). r) similar.candidates

abbrev pub holds_any : Dict ℕ EntityRecord → Bool
holds_any [] = false
holds_any (_ ∷ _) = true

abbrev pub has_candidates : Similar → Bool
has_candidates similar = holds_any similar.candidates

-- `id` is the fresh key and `now` the columns' default moment.
abbrev pub new_record : ℕ → ℕ → Option ℕ → Buckets → EntityRecord
new_record id now user b = record {
  record_id = id;
  row_version = 1;
  deleted_at = none;
  deleted_by = none;
  columns = b.builtin;
  custom_attributes = b.custom;
  created_by = user;
  modified_by = user;
  modified_at = now;
}

abbrev pub override_row : ℕ → Option ℕ → Option String → Similar → DuplicateOverride
override_row id user reason similar = record {
  record_id = id;
  matched_rule_names = similar.matched_rule_names;
  candidate_record_ids = map (λ r. r.record_id) (candidates_of similar);
  override_reason = reason;
  created_by = user;
}

abbrev pub birth_of : ℕ → Option ℕ → Option String → Similar → EntityRecord → Birth
birth_of id user reason similar r = record {
  overrides = (if has_candidates similar then override_row id user reason similar ∷ [] else []);
  feed = feed_entry r created ∷ [];
}

abbrev pub refused_create : CreateError → Result CreateError EntityRecord × Birth
refused_create e = (err e, no_birth)

module _ (id now : ℕ) (user : Option ℕ) (override : Bool) (reason : Option String) where
  abbrev pub create_despite : Buckets → Similar → Result CreateError EntityRecord × Birth
  create_despite b similar =
      let r = new_record id now user b in (ok r, birth_of id user reason similar r)

  abbrev pub create_unless_similar :
      Buckets → Result MatchError Similar → Result CreateError EntityRecord × Birth
  create_unless_similar b (err e) = refused_create (rule_fault e)
  create_unless_similar b (ok similar) =
      if has_candidates similar && not override
      then refused_create (duplicates (candidates_of similar))
      else create_despite b similar

  abbrev pub create_valid :
      Buckets → List ApiError → Result MatchError Similar → Result CreateError EntityRecord × Birth
  create_valid b [] found = create_unless_similar b found
  create_valid b (e ∷ es) found = refused_create (invalid_values (e ∷ es))

  -- The duplicate check looks at the live records alone.
  unfoldable pub create_record :
      TextMethods
      → Parsers
      → List String
      → Registry
      → List EntityRecord
      → Dict String Value
      → Result CreateError EntityRecord × Birth
  create_record methods p columns registry table values =
      let b = validate_changes p registry values true in
      create_valid b b.errors (find_similar_records methods p columns values table false registry)
