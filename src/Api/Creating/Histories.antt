-- ===== src/Api/Creating/Histories.antt =====
-- src/mentorapp/api/record_create.py: the calls of one create form in their order. A call that sends a
-- POST comes with the server's answer to it: a rejection is reported by `save_rejected_duplicates`
-- before the form's next call. Calls between a POST and its answer are not modelled.
use cbm_mentoring_app.Base.{
  String, ◌≡◌, ◌∙◌, refl, sym, ap, subst, not, ◌||◌, keep, if_cases, Option-cases, Bool, true,
  false, Option, none, some, is_some, List, [], ◌∷◌, ◌⊎◌, inl, inr, if◌then◌else◌, Bool-cases,
  arith,
}
use cbm_mentoring_app.Base.Exec.{Result, ok, err}
use cbm_mentoring_app.Base.Dict.{Dict}
use cbm_mentoring_app.Api.Writes.Rules.{Value, Parsers}
use cbm_mentoring_app.Api.Forms.{sweep_ok, sweep_before_save}
use cbm_mentoring_app.Api.Creating.{
  FieldPayload, CommitCreate, CreateFlow, new_flow, settings_of, payload_of, is_given,
  identity_field_names,
}
use cbm_mentoring_app.Api.Creating.Flow.{
  edit_value, similar_check_input, SaveAnswer, swept, commits, commit_of, save_rejected_duplicates,
  FlowError, asserted, continued, request_save, choose_continue, cancel, identity_of, is_ready,
  same_identity,
}

-- What came back for a POST: the 409 with its candidates, or anything else.
pub data Reply : Type 0 where
  rejected : List (Dict String Value) → Reply
  not_rejected : Reply

pub record Sent : Type 0 where
  pub commit : CommitCreate
  pub reply : Reply

-- A call of the form; the two that may send a POST come with the reply to it, which the form is told
-- before its next call.
pub data Call : Type 0 where
  edits : String → Value → Call
  checks : Call
  saves : Reply → Call
  continues : Reply → Call
  cancels : Call

abbrev pub after_reply : CreateFlow → Reply → CreateFlow
after_reply flow (rejected candidates) = (save_rejected_duplicates flow candidates).1
after_reply flow not_rejected = flow

abbrev pub Outcome : Type 0
Outcome = Result FlowError (Option Sent × CreateFlow)

abbrev pub posted : CreateFlow → Reply → CommitCreate → Outcome
posted flow reply commit =
    ok (some (record { commit = commit; reply = reply }), after_reply flow reply)

abbrev pub save_outcome : CreateFlow → Reply → SaveAnswer → Outcome
save_outcome flow reply (swept _) = ok (none, flow)
save_outcome flow reply (commits commit) = posted flow reply commit

abbrev pub continue_outcome : CreateFlow → Reply → Result FlowError (Option CommitCreate) → Outcome
continue_outcome flow reply (err e) = err e
continue_outcome flow reply (ok none) = ok (none, flow)
continue_outcome flow reply (ok (some commit)) = posted flow reply commit

abbrev pub logged : Option Sent → List Sent → List Sent
logged none log = log
logged (some s) log = s ∷ log

abbrev pub with_log :
    Option Sent
    → Result FlowError (List Sent × CreateFlow)
    → Result FlowError (List Sent × CreateFlow)
with_log sent (err e) = err e
with_log sent (ok (log, flow)) = ok (logged sent log, flow)

abbrev pub IsRejected : Reply → Type 0
IsRejected (rejected _) = Unit
IsRejected not_rejected = ⊥

-- The server has rejected the values for their duplicates before.
abbrev pub WasRejected : List Sent → Dict String Value → Type 0
WasRejected [] values = ⊥
WasRejected (s ∷ earlier) values =
    ((s.commit.values ≡ values) × IsRejected s.reply) ⊎ WasRejected earlier values

-- Every override among the POSTs is of values rejected before.
abbrev pub AllJustified : List Sent → List Sent → Type 0
AllJustified earlier [] = Unit
AllJustified earlier (s ∷ log) =
    (s.commit.override_duplicates ≡ true → WasRejected earlier s.commit.values)
    × AllJustified (s ∷ earlier) log

module _ (p : Parsers) where
  abbrev pub step : CreateFlow → Call → Outcome
  step flow (edits name value) = ok (none, edit_value flow name value)
  step flow checks = ok (none, (similar_check_input flow).1)
  step flow (saves reply) = save_outcome flow reply (request_save p flow)
  step flow (continues reply) = continue_outcome flow reply (choose_continue p flow)
  step flow cancels = ok (none, cancel flow)

  abbrev pub after_step :
      (CreateFlow → Result FlowError (List Sent × CreateFlow))
      → Outcome
      → Result FlowError (List Sent × CreateFlow)
  after_step rest (err e) = err e
  after_step rest (ok (sent, flow)) = with_log sent (rest flow)

  -- The POSTs of the calls in their order, and the form that is left.
  unfoldable pub run : List Call → CreateFlow → Result FlowError (List Sent × CreateFlow)
  run [] flow = ok ([], flow)
  run (call ∷ calls) flow = after_step (run calls) (step flow call)

  abbrev is_clean : CreateFlow → Bool
  is_clean flow = sweep_ok (sweep_before_save p (settings_of flow) flow.values)

  -- A pending rejection is of the values that the form still holds, and these are clean.
  abbrev IsPending : List Sent → CreateFlow → Type 0
  IsPending earlier flow =
      is_some flow.server_rejection ≡ true
      → (is_clean flow ≡ true) × WasRejected earlier (payload_of flow.values)

  abbrev IsStep : List Sent → Outcome → Type 0
  IsStep earlier (err e) = ⊥
  IsStep earlier (ok (none, flow)) = IsPending earlier flow
  IsStep earlier (ok (some s, flow)) =
      (s.commit.override_duplicates ≡ true → WasRejected earlier s.commit.values)
      × IsPending (s ∷ earlier) flow

  posted-IsStep :
      (earlier : List Sent) (flow : CreateFlow) (reply : Reply)
      → IsPending earlier flow
      → is_clean flow ≡ true
      → IsStep earlier (posted flow reply (commit_of flow))
  unfolding save_rejected_duplicates
  posted-IsStep earlier flow (rejected candidates) pending clean =
      (λ on. (pending on).1, λ _. (clean, inl (refl, tt)))
  posted-IsStep earlier flow not_rejected pending clean =
      (λ on. (pending on).1, λ on. (clean, inr (pending on).1))

  commits_clean :
      (flow : CreateFlow) → is_clean flow ≡ true → request_save p flow ≡ commits (commit_of flow)
  unfolding request_save
  commits_clean flow clean =
      ap
        (λ b.
          if b
          then commits (commit_of flow)
          else swept (sweep_before_save p (settings_of flow) flow.values))
        clean

  swept_dirty :
      (flow : CreateFlow)
      → is_clean flow ≡ false
      → request_save p flow ≡ swept (sweep_before_save p (settings_of flow) flow.values)
  unfolding request_save
  swept_dirty flow dirty =
      ap
        (λ b.
          if b
          then commits (commit_of flow)
          else swept (sweep_before_save p (settings_of flow) flow.values))
        dirty

  save-IsStep :
      (earlier : List Sent) (flow : CreateFlow) (reply : Reply)
      → IsPending earlier flow
      → IsStep earlier (save_outcome flow reply (request_save p flow))
  save-IsStep earlier flow reply pending = elim (Bool-cases (is_clean flow)) [
    | inl clean ↦
        subst (λ a. IsStep earlier (save_outcome flow reply a)) (sym (commits_clean flow clean))
          (posted-IsStep earlier flow reply pending clean)
    | inr dirty ↦
        subst (λ a. IsStep earlier (save_outcome flow reply a)) (sym (swept_dirty flow dirty))
          pending
  ]

  -- With a rejection pending the assertion of `choose_continue` holds.
  continue-IsStep :
      (earlier : List Sent) (flow : CreateFlow) (reply : Reply)
      → IsPending earlier flow
      → IsStep earlier (continue_outcome flow reply (choose_continue p flow))
  unfolding choose_continue
  continue-IsStep earlier flow reply pending = elim (Option-cases flow.server_rejection) [
    | inl calm ↦
        subst (λ r. IsStep earlier (continue_outcome flow reply (continued p flow r))) (sym calm)
          pending
    | inr (offer, offered) ↦
        let clean = (pending (ap is_some offered)).0 in
        let says = ap (continued p flow) offered ∙ ap asserted (commits_clean flow clean) in
        subst (λ a. IsStep earlier (continue_outcome flow reply a)) (sym says)
          (posted-IsStep earlier flow reply pending clean)
  ]

  check-IsPending :
      (earlier : List Sent) (flow : CreateFlow)
      → IsPending earlier flow
      → IsPending earlier (similar_check_input flow).1
  unfolding similar_check_input
  check-IsPending earlier flow pending =
      let identity = identity_of flow.values (identity_field_names flow.fields) in
      if_cases (λ (r : Option (Dict String Value) × CreateFlow). IsPending earlier r.1)
        (not (is_ready identity flow.rules) || same_identity identity flow.last_checked)
        (none, flow)
        (
          some (keep (λ (_, value). is_given value) identity),
          record flow { last_checked = some identity },
        )
        (λ _. pending) (λ _. pending)

  step-IsStep :
      (earlier : List Sent) (flow : CreateFlow) (call : Call)
      → IsPending earlier flow
      → IsStep earlier (step flow call)
  unfolding edit_value cancel
  step-IsStep earlier flow (edits name value) pending = λ on. absurd (ground (arith, on))
  step-IsStep earlier flow checks pending = check-IsPending earlier flow pending
  step-IsStep earlier flow (saves reply) pending = save-IsStep earlier flow reply pending
  step-IsStep earlier flow (continues reply) pending = continue-IsStep earlier flow reply pending
  step-IsStep earlier flow cancels pending = λ on. absurd (ground (arith, on))

  abbrev IsRun : List Sent → Result FlowError (List Sent × CreateFlow) → Type 0
  IsRun earlier (err e) = ⊥
  IsRun earlier (ok (log, flow)) = AllJustified earlier log

  none-IsRun :
      (earlier : List Sent) (r : Result FlowError (List Sent × CreateFlow))
      → IsRun earlier r
      → IsRun earlier (with_log none r)
  none-IsRun earlier (err e) h = h
  none-IsRun earlier (ok (log, flow)) h = h

  some-IsRun :
      (earlier : List Sent) (s : Sent) (r : Result FlowError (List Sent × CreateFlow))
      → (s.commit.override_duplicates ≡ true → WasRejected earlier s.commit.values)
      → IsRun (s ∷ earlier) r
      → IsRun earlier (with_log (some s) r)
  some-IsRun earlier s (err e) justified h = h
  some-IsRun earlier s (ok (log, flow)) justified h = (justified, h)

  after-IsRun :
      (earlier : List Sent) (rest : CreateFlow → Result FlowError (List Sent × CreateFlow))
      (outcome : Outcome)
      → IsStep earlier outcome
      → ((earlier : List Sent) (flow : CreateFlow)
          → IsPending earlier flow
          → IsRun earlier (rest flow))
      → IsRun earlier (after_step rest outcome)
  after-IsRun earlier rest (err e) stepped runs = stepped
  after-IsRun earlier rest (ok (none, flow)) stepped runs =
      none-IsRun earlier (rest flow) (runs earlier flow stepped)
  after-IsRun earlier rest (ok (some s, flow)) stepped runs =
      some-IsRun earlier s (rest flow) stepped.0 (runs (s ∷ earlier) flow stepped.1)

  run-IsRun :
      (calls : List Call) (earlier : List Sent) (flow : CreateFlow)
      → IsPending earlier flow
      → IsRun earlier (run calls flow)
  unfolding run
  run-IsRun [] earlier flow pending = tt
  run-IsRun (call ∷ calls) earlier flow pending =
      after-IsRun earlier (run calls) (step flow call) (step-IsStep earlier flow call pending)
        (run-IsRun calls)

  run_result :
      (earlier : List Sent) (r : Result FlowError (List Sent × CreateFlow))
      → IsRun earlier r
      → (log : List Sent) × (flow : CreateFlow) × (r ≡ ok (log, flow)) × AllJustified earlier log
  run_result earlier (err e) h = absurd h
  run_result earlier (ok (log, flow)) h = (log, flow, refl, h)

  -- Take any sequence of edits, duplicate checks, saves, continues and cancels in a freshly opened
  -- create form, with any answers of the server to its POSTs, each of which the form is told before
  -- its next call: no edit falls between a POST and its answer. None of these calls raises, so the
  -- assertion of `choose_continue` holds; and each POST that overrides the duplicate check carries
  -- the very values of an earlier POST of this form that the server rejected for duplicates.
  pub run-AllJustified :
      (calls : List Call) (window_key entity_type : String) (fields : List FieldPayload)
      → (log : List Sent) × (flow : CreateFlow) × (run calls
            (new_flow window_key entity_type fields)
          ≡ ok (log, flow))
        × AllJustified [] log
  unfolding new_flow
  run-AllJustified calls window_key entity_type fields =
      run_result [] (run calls (new_flow window_key entity_type fields)) (
        run-IsRun calls [] (new_flow window_key entity_type fields)
          (λ on. absurd (ground (arith, on))))
