-- ===== src/Automation/Workprocess/Commits.antt =====
-- src/mentorapp/automation/workprocess_engine.py: the one applying moment, and ended runs.
use cbm_mentoring_app.Base.{
  sym, ap, ◌∙◌, subst, ◌+◌, ◌≤◌, ◌<◌, List, [], ◌∷◌, ◌++◌, none, leb, refl, inl, inr, ◌⊎◌,
  Bool-cases, ℕ, String, ◌≡◌, ◌≢◌, Option, some, arith,
}
use cbm_mentoring_app.Base.Json.{truth, number, text, array, object, Json, null}
use cbm_mentoring_app.Base.Exec.{Result, ok, err}
use cbm_mentoring_app.Automation.Workprocess.Runs.{
  RunState, discarded, WorkprocessRun, in_flight, committed, WorkprocessRegistration, RunError,
  run_not_in_flight, run_not_completable, handler_raised, answer_step, cancel_run,
}
use cbm_mentoring_app.Automation.Workprocess.Commit.{
  finish, applying, when_finished, when_in_flight, Notification, long_run_notification_after,
  commit_run, payload_of, WorkprocessCommitPayload, Session, Handler, apply, bell,
}

-- The payload is frozen from the run's row: its selection, its answers and its owner.
abbrev pub IsFrozen :
    WorkprocessRun → WorkprocessRegistration → String → WorkprocessCommitPayload → Type 0
IsFrozen run registration key payload =
    (payload.workprocess_registration_id ≡ registration.workprocess_registration_id)
    × (payload.workprocess_name ≡ registration.workprocess_name)
    × (payload.workprocess_run_id ≡ run.workprocess_run_id)
    × (payload.data_source_key ≡ key)
    × (payload.selected_record_ids ≡ run.selected_record_ids)
    × (payload.step_answers ≡ run.step_answers)
    × (payload.user_id ≡ run.user_id)

-- A run of two minutes or more adds one bell entry for its owner, which thirty days later expires; a
-- shorter one adds none.
abbrev pub IsRung : WorkprocessRun → ℕ → List Notification → List Notification → Type 0
IsRung run moment old new =
    (run.created_at + 120_000_000 ≤ moment)
      × ((entry : Notification) × (new ≡ old ++ entry ∷ [])
          × (entry.user_id ≡ run.user_id)
          × (entry.notification_type ≡ "workprocessCompleted")
          × (entry.notification_expires_at ≡ moment + 2_592_000_000_000))
    ⊎ (moment < run.created_at + 120_000_000) × (new ≡ old)

bell-IsRung :
    (run : WorkprocessRun) (moment : ℕ) (old : List Notification)
    → IsRung run moment old (bell run moment old)
bell-IsRung run moment old =
    elim (Bool-cases (leb (run.created_at + long_run_notification_after) moment)) [
      | inl long ↦ inl (ground (arith, long), (_, ground (arith, long), refl, refl, refl))
      | inr short ↦ inr (ground (arith, short), ground (arith, short))
    ]

module _ (W X : Type 0) where
  -- The handler's one run, on the payload and the program's data; without one nothing is written.
  abbrev pub Applies :
      Option (Handler W X) → WorkprocessCommitPayload → W → Result X (Unit {0}) → W → Type 0
  Applies none payload w outcome w' = (outcome ≡ ok tt) × (w' ≡ w)
  Applies (some handler) payload w outcome w' = handler payload w ≡ (outcome, w')

  apply-Applies :
      (handler : Option (Handler W X)) (payload : WorkprocessCommitPayload) (w : W)
      → let (outcome, w') = apply handler payload w in Applies handler payload w outcome w'
  apply-Applies none payload w = (refl, refl)
  apply-Applies (some handler) payload w = refl

  -- What a commit leaves, by its result.
  abbrev pub IsAllOrNothing :
      Session W
      → WorkprocessRegistration
      → String
      → Option (Handler W X)
      → ℕ
      → Result (RunError X) WorkprocessCommitPayload
      → Session W
      → Type 0
  IsAllOrNothing s registration key handler moment (ok payload) s' =
      (s.run.run_state ≡ in_flight)
      × (s.run.current_step_key ≡ null)
      × IsFrozen s.run registration key payload
      × Applies handler payload s.data_written (ok tt) s'.data_written
      × (s'.run ≡ record s.run {
        run_state = committed;
        completed_at = some moment;
        modified_by = s.run.user_id;
      })
      × IsRung s.run moment s.notifications s'.notifications
  IsAllOrNothing s registration key handler moment (err (handler_raised x)) s' =
      ((payload : WorkprocessCommitPayload) × IsFrozen s.run registration key payload
        × Applies handler payload s.data_written (err x) s'.data_written)
      × (s'.run ≡ s.run)
      × (s'.notifications ≡ s.notifications)
  IsAllOrNothing s registration key handler moment (err (run_not_in_flight state)) s' =
      (s.run.run_state ≡ state) × (state ≢ in_flight) × (s' ≡ s)
  IsAllOrNothing s registration key handler moment (err (run_not_completable place)) s' =
      (s.run.run_state ≡ in_flight) × (s.run.current_step_key ≡ place) × (place ≢ null) × (s' ≡ s)
  IsAllOrNothing s registration key handler moment (err _) s' = ⊥

  module _ (s : Session W) (registration : WorkprocessRegistration) (key : String)
      (handler_for : String → Option (Handler W X)) (moment : ℕ) where
    abbrev Left : Result (RunError X) WorkprocessCommitPayload × Session W → Type 0
    Left (result, s') =
        IsAllOrNothing s registration key (handler_for registration.workprocess_name) moment result
          s'

    finish-Left :
        (outcome : Result X (Unit {0})) (w : W)
        → s.run.run_state ≡ in_flight
        → s.run.current_step_key ≡ null
        → Applies
            (handler_for registration.workprocess_name)
            (payload_of s.run registration key)
            s.data_written
            outcome
            w
        → Left (finish s (payload_of s.run registration key) moment (outcome, w))
    unfolding payload_of
    finish-Left (err x) w flies over h =
        ((_, (refl, refl, refl, refl, refl, refl, refl), h), refl, refl)
    finish-Left (ok tt) w flies over h = (
      flies,
      over,
      (refl, refl, refl, refl, refl, refl, refl),
      h,
      refl,
      bell-IsRung s.run moment s.notifications,
    )

    abbrev rest : Result (RunError X) WorkprocessCommitPayload × Session W
    rest = applying s registration key handler_for moment

    when_finished-Left :
        (place : Json)
        → s.run.current_step_key ≡ place
        → s.run.run_state ≡ in_flight
        → Left (when_finished place rest s)
    when_finished-Left null over flies =
        let handler = handler_for registration.workprocess_name in
        let payload = payload_of s.run registration key in
        let (outcome, w) = apply handler payload s.data_written in
        finish-Left outcome w flies over (apply-Applies handler payload s.data_written)
    when_finished-Left (truth b) e flies = (flies, e, λ h. ground (arith, h), refl)
    when_finished-Left (number n) e flies = (flies, e, λ h. ground (arith, h), refl)
    when_finished-Left (text t) e flies = (flies, e, λ h. ground (arith, h), refl)
    when_finished-Left (array items) e flies = (flies, e, λ h. ground (arith, h), refl)
    when_finished-Left (object fields) e flies = (flies, e, λ h. ground (arith, h), refl)

    when_in_flight-Left :
        (state : RunState)
        → s.run.run_state ≡ state
        → Left (when_in_flight state (when_finished s.run.current_step_key rest s) s)
    when_in_flight-Left in_flight e = when_finished-Left s.run.current_step_key refl e
    when_in_flight-Left committed e = (e, λ h. ground (arith, h), refl)
    when_in_flight-Left discarded e = (e, λ h. ground (arith, h), refl)

  -- A commit succeeds only for a run in flight whose walk is over; then the handler was applied
  -- once to the frozen payload and did not raise, the run is committed at the moment given, and
  -- its owner's bell has one entry more if the run took two minutes or longer. A raising handler leaves the run and the bell as they
  -- were, and a refusal, of a run that ended or of one that stands on a step, leaves everything.
  pub commit_run-IsAllOrNothing :
      (s : Session W) (registration : WorkprocessRegistration) (key : String)
      (handler_for : String → Option (Handler W X)) (moment : ℕ)
      → let (result, s') = commit_run s registration key handler_for moment in
        IsAllOrNothing s registration key
          (handler_for registration.workprocess_name)
          moment
          result
          s'
  unfolding commit_run
  commit_run-IsAllOrNothing s registration key handler_for moment =
      when_in_flight-Left s registration key handler_for moment s.run.run_state refl

-- A verb called on a run.
pub data Verb (W X : Type 0) : Type 0 where
  answers : WorkprocessRegistration → String → Json → Option String → Verb W X
  cancels : ℕ → Verb W X
  commits : WorkprocessRegistration → String → (String → Option (Handler W X)) → ℕ → Verb W X

module _ {W X : Type 0} where
  abbrev moved : Session W → Result (RunError X) WorkprocessRun → Option (RunError X) × Session W
  moved s (ok run) = (none, record s { run = run })
  moved s (err e) = (some e, s)

  abbrev answered :
      Result (RunError X) WorkprocessCommitPayload × Session W → Option (RunError X) × Session W
  answered (ok payload, s) = (none, s)
  answered (err e, s) = (some e, s)

  -- The error of a verb, if it raised, and the session after it.
  abbrev pub verb : Verb W X → Session W → Option (RunError X) × Session W
  verb (answers registration step_key answer branch) s =
      moved s (answer_step s.run registration step_key answer branch)
  verb (cancels now) s = moved s (cancel_run s.run now)
  verb (commits registration key handler_for moment) s =
      answered (commit_run s registration key handler_for moment)

  abbrev pub verbs : List (Verb W X) → Session W → Session W
  verbs [] s = s
  verbs (x ∷ xs) s = verbs xs (verb x s).1

  -- Every one of the verbs is refused with the state, in the session it meets.
  abbrev pub AllRefused : RunState → List (Verb W X) → Session W → Type 0
  AllRefused state [] s = Unit
  AllRefused state (x ∷ xs) s =
      ((verb x s).0 ≡ some (run_not_in_flight state)) × AllRefused state xs (verb x s).1

  -- The state in which a cancel and a commit end a run; an answer ends none.
  abbrev pub Ends : Verb W X → RunState → ℕ → Type 0
  Ends (answers _ _ _ _) state moment = ⊥
  Ends (cancels now) state moment = (state ≡ discarded) × (moment ≡ now)
  Ends (commits _ _ _ now) state moment = (state ≡ committed) × (moment ≡ now)

  refused :
      (x : Verb W X) (s : Session W)
      → s.run.run_state ≢ in_flight
      → verb x s ≡ (some (run_not_in_flight s.run.run_state), s)
  unfolding answer_step cancel_run commit_run
  refused (answers registration step_key answer branch) s h = ground (arith, h)
  refused (cancels now) s h = ground (arith, h)
  refused (commits registration key handler_for moment) s h = ground (arith, h)

  all_refused :
      (xs : List (Verb W X)) (s : Session W)
      → s.run.run_state ≢ in_flight
      → AllRefused s.run.run_state xs s × (verbs xs s ≡ s)
  all_refused [] s h = (tt, refl)
  all_refused (x ∷ xs) s h =
      let here = refused x s h in
      let (there, same) = all_refused xs s h in
      (
        (
          ap (λ p. p.0) here,
          subst (AllRefused s.run.run_state xs) (sym (ap (λ p. p.1) here)) there,
        ),
        ap (λ p. verbs xs p.1) here ∙ same,
      )

  ending :
      (x : Verb W X) (s : Session W) (state : RunState) (moment : ℕ)
      → Ends x state moment
      → (verb x s).0 ≡ none
      → ((verb x s).1.run.run_state ≡ state) × ((verb x s).1.run.completed_at ≡ some moment)
  unfolding cancel_run commit_run
  ending (answers _ _ _ _) s state moment ends done = absurd ends
  ending (cancels now) s state moment ends done = ground (arith, ends, done)
  ending (commits registration key handler_for now) s state moment ends done =
      ground (arith, ends, done)

  not_in_flight :
      (x : Verb W X) (state : RunState) (moment : ℕ) → Ends x state moment → state ≢ in_flight
  not_in_flight (answers _ _ _ _) state moment ends = absurd ends
  not_in_flight (cancels now) state moment ends = ground (arith, ends)
  not_in_flight (commits _ _ _ now) state moment ends = ground (arith, ends)

  -- A run that a cancel or a commit has ended stays ended. The verb leaves it discarded or committed,
  -- completed at its moment; and of every sequence of submissions, cancels and commits that follows,
  -- each is refused with that state, and the session is at the end what it was: run, bell and data.
  pub ended_for_good :
      (x : Verb W X) (s : Session W) (state : RunState) (moment : ℕ) (later : List (Verb W X))
      → Ends x state moment
      → (verb x s).0 ≡ none
      → let s' = (verb x s).1 in
        (s'.run.run_state ≡ state)
        × (s'.run.completed_at ≡ some moment)
        × AllRefused state later s'
        × (verbs later s' ≡ s')
  ended_for_good x s state moment later ends done =
      let (stands, completed) = ending x s state moment ends done in
      let (each, same) =
        all_refused later (verb x s).1
          (λ flies. not_in_flight x state moment ends (sym stands ∙ flies)) in
      (stands, completed, subst (λ st. AllRefused st later (verb x s).1) stands each, same)
