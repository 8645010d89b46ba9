-- ===== src/Api/Creating/Commits.antt =====
-- src/mentorapp/api/record_create.py against src/mentorapp/api/write_engine.py: what the server makes
-- of the form's POST.
use cbm_mentoring_app.Base.{
  ℕ, String, ◌≡◌, ◌∙◌, refl, sym, ap, true, false, not, ◌&&◌, Option, none, List, [], ◌∷◌,
  string_eq, All, if_cases, arith,
}
use cbm_mentoring_app.Base.Exec.{Result, ok, err}
use cbm_mentoring_app.Base.Dict
use cbm_mentoring_app.Base.Dict.{Dict, IsDict, keys}
use cbm_mentoring_app.Api.Writes.Rules.{Value, value_eq, Parsers, ApiError}
use cbm_mentoring_app.Api.Writes.Changes.{
  Registry, Buckets, empty_buckets, validate_changes, required_errors, is_absent,
}
use cbm_mentoring_app.Api.Writes.Checks.{AllAccepted, accepted-validate_all}
use cbm_mentoring_app.Api.Writes.Updates.{EntityRecord}
use cbm_mentoring_app.Api.Writes.Matching.{TextMethods, MatchError, Similar, find_similar_records}
use cbm_mentoring_app.Api.Writes.Creates.{
  CreateError, invalid_values, duplicates, rule_fault, Birth, create_record, create_valid,
  create_unless_similar, has_candidates, candidates_of, refused_create, create_despite,
}
use cbm_mentoring_app.Api.Forms.{FieldSettings, normalized_input, sweep_ok, sweep_before_save}
use cbm_mentoring_app.Api.Forms.Sweeps.{
  sent_payload, IsSendable, IsCovered, no_problems, sent-All, required_errors_none,
}
use cbm_mentoring_app.Api.Creating.{CommitCreate, CreateFlow, settings_of, payload_of, is_given}
use cbm_mentoring_app.Api.Creating.Flow.{commits, commit_of, request_save}

module _ (p : Parsers) where
  payload-AllAccepted :
      (registry : Registry) (values : Dict String Value)
      → AllAccepted p registry (sent_payload p values)
      → AllAccepted p registry (payload_of values)
  payload-AllAccepted registry [] h = tt
  payload-AllAccepted registry ((name, value) ∷ values) h =
      if_cases (AllAccepted p registry) (is_given (normalized_input value))
        ((name, normalized_input value) ∷ payload_of values) (payload_of values)
        (λ _. (h.0, payload-AllAccepted registry values h.1))
        (λ _. payload-AllAccepted registry values h.1)

  get-payload_of :
      (values : Dict String Value) (name : String)
      → Dict.get values name ≡ none
      → Dict.get (payload_of values) name ≡ none
  unfolding Dict.get
  get-payload_of [] name h = refl
  get-payload_of ((n, v) ∷ values) name h = ground (arith, h, get-payload_of values name)

  absent-payload_of :
      (values : Dict String Value) (name : String)
      → IsDict values
      → is_absent (Dict.get (payload_of values) name)
        ≡ is_absent (Dict.get (sent_payload p values) name)
  unfolding Dict.get
  absent-payload_of [] name h = refl
  absent-payload_of ((n, v) ∷ values) name h =
      ground (arith, absent-payload_of values name h.1, get-payload_of values n h.0)

  required_errors_same :
      (registry : Registry) (xs ys : Dict String Value)
      → ((name : String) → is_absent (Dict.get xs name) ≡ is_absent (Dict.get ys name))
      → required_errors p registry xs ≡ required_errors p registry ys
  unfolding required_errors
  required_errors_same [] xs ys h = refl
  required_errors_same ((name, row) ∷ registry) xs ys h =
      ground (arith, h name, required_errors_same registry xs ys h)

  errors-payload_of :
      (registry : Registry) (fields : List FieldSettings) (values : Dict String Value)
      → IsDict values
      → All (IsSendable p registry fields) values
      → All (IsCovered p fields) registry
      → sweep_ok (sweep_before_save p fields values) ≡ true
      → (validate_changes p registry (payload_of values) true).errors ≡ []
  unfolding validate_changes
  errors-payload_of registry fields values dict sendable covered swept_ok =
      let clean = no_problems p fields values swept_ok in
      let accepted = accepted-validate_all p registry empty_buckets (payload_of values) (
        payload-AllAccepted registry values (
          sent-All p registry fields values values clean (Dict.get-entries values dict)
            sendable)) in
      let required =
        required_errors_same registry (payload_of values) (sent_payload p values)
          (λ name. absent-payload_of values name dict)
        ∙ required_errors_none p registry fields values clean covered in
      ground (arith, accepted, required)

  -- The server's answer to a POST of the form: no error in the values, and no duplicates where the
  -- POST overrides them.
  abbrev pub IsAnswer : CommitCreate → Result CreateError EntityRecord → Type 0
  IsAnswer commit (ok created) = Unit
  IsAnswer commit (err (invalid_values _)) = ⊥
  IsAnswer commit (err (duplicates _)) = commit.override_duplicates ≡ false
  IsAnswer commit (err (rule_fault _)) = Unit

  commit_inversion :
      (flow : CreateFlow) (commit : CommitCreate)
      → request_save p flow ≡ commits commit
      → (sweep_ok (sweep_before_save p (settings_of flow) flow.values) ≡ true)
        × (commit_of flow ≡ commit)
  unfolding request_save
  commit_inversion flow commit h = ground (arith, h)

  module _ (id now : ℕ) (user : Option ℕ) where
    unless-IsAnswer :
        (commit : CommitCreate) (b : Buckets) (found : Result MatchError Similar)
        → IsAnswer commit
            (create_unless_similar id now user commit.override_duplicates commit.override_reason b
              found).0
    unless-IsAnswer commit b (err e) = tt
    unless-IsAnswer commit b (ok similar) =
        if_cases (λ (r : Result CreateError EntityRecord × Birth). IsAnswer commit r.0)
          (has_candidates similar && not commit.override_duplicates)
          (refused_create (duplicates (candidates_of similar)))
          (create_despite id now user commit.override_duplicates commit.override_reason b similar)
          (λ refusing. ground (arith, refusing)) (λ _. tt)

    valid-IsAnswer :
        (commit : CommitCreate) (b : Buckets) (es : List ApiError)
        (found : Result MatchError Similar)
        → es ≡ []
        → IsAnswer commit
            (create_valid id now user commit.override_duplicates commit.override_reason b es
              found).0
    valid-IsAnswer commit b [] found h = unless-IsAnswer commit b found
    valid-IsAnswer commit b (e ∷ es) found h = ground (arith, h)

    -- What the form commits, the write engine accepts: where a save of the form commits, the create
    -- of its values, with its override, is not refused for an error in a value, and not for
    -- duplicates if it overrides them. The conditions: the form's values are a dict, each of a shown
    -- field of the registry, not structural and of a value that its column takes, and the form
    -- shows every required row.
    pub request_save-create_record :
        (flow : CreateFlow) (commit : CommitCreate) (methods : TextMethods) (columns : List String)
        (registry : Registry) (table : List EntityRecord)
        → IsDict flow.values
        → All (IsSendable p registry (settings_of flow)) flow.values
        → All (IsCovered p (settings_of flow)) registry
        → request_save p flow ≡ commits commit
        → IsAnswer commit
            (create_record id now user commit.override_duplicates commit.override_reason methods p
              columns registry table commit.values).0
    unfolding create_record
    request_save-create_record flow commit methods columns registry table dict sendable covered
          saved =
        let (swept_ok, same) = commit_inversion flow commit saved in
        let valid =
          ap (λ (c : CommitCreate). (validate_changes p registry c.values true).errors) (sym same)
          ∙ errors-payload_of registry (settings_of flow) flow.values dict sendable covered
              swept_ok in
        let b = validate_changes p registry commit.values true in
        valid-IsAnswer commit b b.errors
          (find_similar_records methods p columns commit.values table false registry) valid
