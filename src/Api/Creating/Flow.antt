-- ===== src/Api/Creating/Flow.antt =====
-- src/mentorapp/api/record_create.py: the methods of `CreateFlow`.
use Prim.Native.String
use cbm_mentoring_app.Base.{
  ℕ, String, Bool, true, false, ◌||◌, not, Option, none, some, is_some, List, [], ◌∷◌, map, keep,
  any, all, ◌==◌, string_eq, if◌then◌else◌,
}
use cbm_mentoring_app.Base.Sorting.{sorted_names}
use cbm_mentoring_app.Base.Exec.{Result, ok, err}
use cbm_mentoring_app.Base.Dict
use cbm_mentoring_app.Base.Dict.{Dict, keys}
use cbm_mentoring_app.Api.Writes.Rules.{Value, value_eq, Parsers}
use cbm_mentoring_app.Api.Writes.Merges.{value_of}
use cbm_mentoring_app.Api.EditSafety.Windows.{
  SaveNotice, CloseAnswer, close_allowed, dirty_window_guard,
}
use cbm_mentoring_app.Api.Forms.{normalized_input, ValidationSweep, sweep_ok, sweep_before_save}
use cbm_mentoring_app.Api.Creating.{
  is_given, identity_field_names, SimilarCandidate, SimilarRecordsOffer, CommitCreate, CreateFlow,
  settings_of, payload_of, union,
}

unfoldable pub edit_value : CreateFlow → String → Value → CreateFlow
edit_value flow field_name value = record flow {
  values = Dict.put flow.values field_name value;
  server_rejection = none;
}

abbrev pub identity_of : Dict String Value → List String → Dict String Value
identity_of values = map (λ name. (name, normalized_input (value_of values name)))

-- `identity == last_checked`: both are over the same names.
abbrev pub same_identity : Dict String Value → Option (Dict String Value) → Bool
same_identity identity none = false
same_identity identity (some checked) =
    all (λ (name, value). value_of checked name == value) identity

abbrev pub is_ready : Dict String Value → Dict String (List String) → Bool
is_ready identity = any (λ (_, members). all (λ name. is_given (value_of identity name)) members)

unfoldable pub similar_check_input : CreateFlow → Option (Dict String Value) × CreateFlow
similar_check_input flow =
    let identity = identity_of flow.values (identity_field_names flow.fields) in
    if not (is_ready identity flow.rules) || same_identity identity flow.last_checked
    then (none, flow)
    else (
      some (keep (λ (_, value). is_given value) identity),
      record flow { last_checked = some identity },
    )

abbrev pub candidate_of : Dict String Value → SimilarCandidate
candidate_of found = record { candidate = found; removed = is_given (value_of found "deletedAt") }

unfoldable pub offer_similar : CreateFlow → List (Dict String Value) → Option SimilarRecordsOffer
offer_similar flow [] = none
offer_similar flow (found ∷ more) = some (record {
  entity_type = flow.entity_type;
  candidates = map candidate_of (found ∷ more);
  blocking = false;
  enforced = false;
})

pub data SaveAnswer : Type 0 where
  swept : ValidationSweep → SaveAnswer
  commits : CommitCreate → SaveAnswer

abbrev pub override_reason_of : Option SimilarRecordsOffer → Option String
override_reason_of none = none
override_reason_of (some _) = some "userContinuedPastDuplicateOffer"

abbrev pub commit_of : CreateFlow → CommitCreate
commit_of flow = record {
  entity_type = flow.entity_type;
  values = payload_of flow.values;
  override_duplicates = is_some flow.server_rejection;
  override_reason = override_reason_of flow.server_rejection;
}

abbrev pub rejection_of : CreateFlow → List (Dict String Value) → SimilarRecordsOffer
rejection_of flow candidates = record {
  entity_type = flow.entity_type;
  candidates = map (λ found. record { candidate = found; removed = false }) candidates;
  blocking = false;
  enforced = true;
}

unfoldable pub save_rejected_duplicates :
    CreateFlow → List (Dict String Value) → SimilarRecordsOffer × CreateFlow
save_rejected_duplicates flow candidates =
    let offer = rejection_of flow candidates in
    (offer, record flow { server_rejection = some offer })

-- The errors that Python raises: the failed `assert`, `ValueError` and `KeyError`.
pub data FlowError : Type 0 where
  assertion_error : FlowError
  value_error : FlowError
  key_error : String → FlowError

-- `assert isinstance(save, CommitCreate)`
abbrev pub asserted : SaveAnswer → Result FlowError (Option CommitCreate)
asserted (swept _) = err assertion_error
asserted (commits commit) = ok (some commit)

module _ (p : Parsers) where
  unfoldable pub request_save : CreateFlow → SaveAnswer
  request_save flow =
      let sweep = sweep_before_save p (settings_of flow) flow.values in
      if sweep_ok sweep then commits (commit_of flow) else swept sweep

  abbrev pub continued :
      CreateFlow → Option SimilarRecordsOffer → Result FlowError (Option CommitCreate)
  continued flow none = ok none
  continued flow (some _) = asserted (request_save flow)

  unfoldable pub choose_continue : CreateFlow → Result FlowError (Option CommitCreate)
  choose_continue flow = continued flow flow.server_rejection

pub record SwitchToExisting : Type 0 where
  pub entity_type : String
  pub record_id : String
  pub destination : String

abbrev pub create_landing : String
create_landing = "readView"

abbrev choose_switch : CreateFlow → String → SwitchToExisting
choose_switch flow record_id = record {
  entity_type = flow.entity_type;
  record_id = record_id;
  destination = create_landing;
}

pub record RestoreInsteadOfCreate : Type 0 where
  pub entity_type : String
  pub record_id : String
  pub row_version : ℕ
  pub destination : String

pub record CreateSaved : Type 0 where
  pub entity_type : String
  pub record_id : String
  pub destination : String
  pub notice : SaveNotice

-- `str` is one of the parsers, `int` a parameter: `none` where it raises.
module _ (p : Parsers) (int : Value → Option ℕ) where
  abbrev id_at : String → Option Value → Result FlowError String
  id_at key none = err (key_error key)
  id_at key (some value) = ok (p.str value)

  abbrev version_number : Option ℕ → Result FlowError ℕ
  version_number none = err value_error
  version_number (some n) = ok n

  abbrev version_at : Option Value → Result FlowError ℕ
  version_at none = err (key_error "rowVersion")
  version_at (some value) = version_number (int value)

  abbrev both : Result FlowError String → Result FlowError ℕ → Result FlowError (String × ℕ)
  both (err e) _ = err e
  both (ok record_id) (err e) = err e
  both (ok record_id) (ok row_version) = ok (record_id, row_version)

  -- The record's id under `{entity_type}ID`, and its version.
  abbrev identified : String → Dict String Value → Result FlowError (String × ℕ)
  identified entity_type found =
      let key = Prim.Native.String.◌++◌ entity_type "ID" in
      both (id_at key (Dict.get found key)) (version_at (Dict.get found "rowVersion"))

  abbrev restore_of :
      String → Result FlowError (String × ℕ) → Result FlowError RestoreInsteadOfCreate
  restore_of entity_type (err e) = err e
  restore_of entity_type (ok (record_id, row_version)) = ok (record {
    entity_type = entity_type;
    record_id = record_id;
    row_version = row_version;
    destination = create_landing;
  })

  unfoldable pub choose_restore :
      CreateFlow → SimilarCandidate → Result FlowError RestoreInsteadOfCreate
  choose_restore flow c =
      if c.removed
      then restore_of flow.entity_type (identified flow.entity_type c.candidate)
      else err value_error

  abbrev saved_of : String → Result FlowError (String × ℕ) → Result FlowError CreateSaved
  saved_of entity_type (err e) = err e
  saved_of entity_type (ok (record_id, row_version)) = ok (record {
    entity_type = entity_type;
    record_id = record_id;
    destination = create_landing;
    notice = record {
      entity_type = entity_type;
      record_id = record_id;
      row_version = row_version;
      change_kind = "created";
    };
  })

  unfoldable pub save_succeeded : CreateFlow → Dict String Value → Result FlowError CreateSaved
  save_succeeded flow created = saved_of flow.entity_type (identified flow.entity_type created)

unfoldable pub cancel : CreateFlow → CreateFlow
cancel flow = record flow { values = flow.seed; server_rejection = none }

-- `values.get(name) != seed.get(name)`
abbrev pub is_authored : CreateFlow → String → Bool
is_authored flow name = not (value_of flow.values name == value_of flow.seed name)

-- `sorted(name for name in {*values, *seed} if ...)`
abbrev pub authored_names : CreateFlow → List String
authored_names flow =
    sorted_names (keep (is_authored flow) (union (union [] (keys flow.values)) (keys flow.seed)))

abbrev pub close_answer : String → List String → CloseAnswer
close_answer window_key [] = close_allowed window_key
close_answer window_key (name ∷ names) = dirty_window_guard window_key (name ∷ names)

unfoldable pub request_close : CreateFlow → CloseAnswer
request_close flow = close_answer flow.window_key (authored_names flow)
