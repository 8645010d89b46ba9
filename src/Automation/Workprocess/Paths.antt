-- ===== src/Automation/Workprocess/Paths.antt =====
-- src/mentorapp/automation/workprocess_engine.py: where a run of an accepted graph can stand.
use cbm_mentoring_app.Base.{
  ℕ, String, ◌≡◌, ◌⊎◌, inl, inr, refl, sym, ap, true, Option, none, some, is_some, List, [], ◌∷◌,
  arith, string_eq, contains, Option-cases, ==-self, subst,
}
use cbm_mentoring_app.Base.Json.{Json, null, text, object, member_of}
use cbm_mentoring_app.Base.Dict
use cbm_mentoring_app.Base.Dict.{Dict}
use cbm_mentoring_app.Base.Exec.{Result, ok, err, Result-cases}
use cbm_mentoring_app.Automation.Workprocess.Graph.{steps_in, declare_all, step_graph_problems}
use cbm_mentoring_app.Automation.Workprocess.Walks.{
  IsPlace, IsWalkable, step_graph_problems-IsWalkable,
}
use cbm_mentoring_app.Automation.Workprocess.Declared.{
  IsDeclaration, keys_in, declared_steps_lem, declaration,
}
use cbm_mentoring_app.Automation.Workprocess.Runs.{
  WorkprocessRun, WorkprocessRegistration, RunError, answer_step, advance, default_of, launch_run,
  in_flight,
}

default-IsPlace :
    (known : List String) (declared : Dict String Json) (key : String)
    → IsDeclaration known declared
    → IsPlace known (default_of (Dict.get declared key))
default-IsPlace known declared key d = elim (Option-cases (Dict.get declared key)) [
  | inl p ↦ inl (ap default_of p)
  | inr (next, p) ↦ subst (IsPlace known) (sym (ap default_of p)) (d.places key next p)
]

abbrev pub known_by : WorkprocessRegistration → List String
known_by registration = keys_in registration.step_graph

abbrev pub declared_by : WorkprocessRegistration → Dict String Json
declared_by registration = declare_all [] (steps_in (member_of registration.step_graph "steps"))

abbrev pub Stands : WorkprocessRegistration → WorkprocessRun → Type 0
Stands registration run =
    (run.run_state ≡ in_flight) × IsPlace (known_by registration) run.current_step_key

module _ (X : Type 0) (registration : WorkprocessRegistration) where
  -- A refused answer changes nothing.
  kept : WorkprocessRun → Result (RunError X) WorkprocessRun → WorkprocessRun
  kept run (ok next) = next
  kept run (err e) = run

  -- The run after a sequence of submissions; a refused one leaves it as it is.
  pub after_answers : WorkprocessRun → List (String × Json × Option String) → WorkprocessRun
  unfolding kept
  after_answers run [] = run
  after_answers run ((step_key, answer, branch) ∷ rest) =
      after_answers (kept run (answer_step {X = X} run registration step_key answer branch)) rest

  -- The walk is over, or two answers end it: the current step's, routed to a terminal step, and
  -- that step's own.
  abbrev pub CanFinish : WorkprocessRun → Type 0
  CanFinish run =
      (run.current_step_key ≡ null)
      ⊎ ((here : String) × (t : String) × (run.current_step_key ≡ text here)
          × (contains (known_by registration) here ≡ true)
          × ((a b : Json)
              → (mid : WorkprocessRun) × (last : WorkprocessRun) × (answer_step {X = X} run
                    registration here a (some t)
                  ≡ ok mid)
                × (answer_step {X = X} mid registration t b none ≡ ok last)
                × (last.current_step_key ≡ null)
                × (last.run_state ≡ in_flight)))

module _ (X : Type 0) (registration : WorkprocessRegistration)
    (w : IsWalkable registration.step_graph) where
  default_answer :
      (run next : WorkprocessRun) (step_key : String) (answer : Json)
      → answer_step {X = X} run registration step_key answer none ≡ ok next
      → next.current_step_key ≡ default_of (Dict.get (declared_by registration) step_key)
  unfolding answer_step
  default_answer run next step_key answer h =
      ground (arith, h, declared_steps_lem registration.step_graph w)

  routed_answer :
      (run next : WorkprocessRun) (step_key : String) (answer : Json) (to : String)
      → answer_step {X = X} run registration step_key answer (some to) ≡ ok next
      → (next.current_step_key ≡ text to)
        × (is_some (Dict.get (declared_by registration) to) ≡ true)
  unfolding answer_step
  routed_answer run next step_key answer to h =
      ground (arith, h, declared_steps_lem registration.step_graph w)

  answer_step-IsPlace :
      (run next : WorkprocessRun) (step_key : String) (answer : Json) (branch : Option String)
      → answer_step {X = X} run registration step_key answer branch ≡ ok next
      → IsPlace (known_by registration) next.current_step_key
  answer_step-IsPlace run next step_key answer none h =
      subst (IsPlace (known_by registration)) (sym (default_answer run next step_key answer h)) (
        default-IsPlace (known_by registration) (declared_by registration) step_key
          (declaration registration.step_graph w))
  answer_step-IsPlace run next step_key answer (some to) h =
      let (p, q) = routed_answer run next step_key answer to h in
      inr (to, p, (declaration registration.step_graph w).sound to q)

  accepted :
      (run : WorkprocessRun) (here : String) (answer : Json) (branch : Option String)
      → run.run_state ≡ in_flight
      → run.current_step_key ≡ text here
      → (branch ≡ none)
        ⊎ ((to : String) × (branch ≡ some to)
            × (is_some (Dict.get (declared_by registration) to) ≡ true))
      → answer_step {X = X} run registration here answer branch
        ≡ ok (
            advance run here answer (elim branch [
              | none ↦ default_of (Dict.get (declared_by registration) here)
              | some to ↦ text to
            ]))
  unfolding answer_step
  accepted run here answer none flying stands legal =
      ground (arith, flying, stands, ==-self here, declared_steps_lem registration.step_graph w)
  accepted run here answer (some to) flying stands legal =
      ground
        (arith, flying, stands, legal, ==-self here, declared_steps_lem registration.step_graph w)

  answer_step-state :
      (run next : WorkprocessRun) (step_key : String) (answer : Json) (branch : Option String)
      → answer_step {X = X} run registration step_key answer branch ≡ ok next
      → run.run_state ≡ in_flight
      → next.run_state ≡ in_flight
  unfolding answer_step
  answer_step-state run next step_key answer none h flying =
      ground (arith, h, flying, declared_steps_lem registration.step_graph w)
  answer_step-state run next step_key answer (some to) h flying =
      ground (arith, h, flying, declared_steps_lem registration.step_graph w)

  kept-Stands :
      (run : WorkprocessRun) (step_key : String) (answer : Json) (branch : Option String)
      → Stands registration run
      → Stands registration
          (kept X registration run (answer_step {X = X} run registration step_key answer branch))
  unfolding kept
  kept-Stands run step_key answer branch stands =
      elim (Result-cases (answer_step {X = X} run registration step_key answer branch)) [
        | inl (e, p) ↦ rw p stands
        | inr (next, p) ↦ rw p (
          answer_step-state run next step_key answer branch p stands.0,
          answer_step-IsPlace run next step_key answer branch p,
        )
      ]

  after_answers-Stands :
      (run : WorkprocessRun) (answers : List (String × Json × Option String))
      → Stands registration run
      → Stands registration (after_answers X registration run answers)
  unfolding after_answers
  after_answers-Stands run [] h = h
  after_answers-Stands run ((step_key, answer, branch) ∷ rest) h =
      after_answers-Stands
        (kept X registration run (answer_step {X = X} run registration step_key answer branch)) rest
        (kept-Stands run step_key answer branch h)

  can_finish : (run : WorkprocessRun) → Stands registration run → CanFinish X registration run
  can_finish run (flying, inl over) = inl over
  can_finish run (flying, inr (here, stands, found)) =
      let (t, q) = (declaration registration.step_graph w).ending in
      inr (
        here,
        t,
        stands,
        found,
        λ a b.
            let mid = advance run here a (text t) in
            (
              mid,
              advance mid t b (default_of (Dict.get (declared_by registration) t)),
              accepted run here a (some t) flying stands (inr (t, refl, ground (arith, q))),
              accepted mid t b none flying refl (inl refl),
              ap default_of q,
              flying,
            ),
      )

-- For a graph that `step_graph_problems` accepts, a launched run stays in flight under any
-- sequence of submissions, accepted or refused, and it always stands at the end of its walk or on
-- a declared step from which two answers end the walk: the current step's, routed to a terminal
-- step, and that step's own.
pub never_stuck :
    (X : Type 0) (run_id now : ℕ) (registration : WorkprocessRegistration) (source_id : ℕ)
    (selected : List String) (user_id : ℕ) (answers : List (String × Json × Option String))
    → step_graph_problems (object registration.step_graph) ≡ some []
    → let run =
        after_answers X registration
          (launch_run run_id now registration source_id selected user_id)
          answers in
      (run.run_state ≡ in_flight) × CanFinish X registration run
unfolding launch_run
never_stuck X run_id now registration source_id selected user_id answers h =
    let w = step_graph_problems-IsWalkable registration.step_graph h in
    let launched = launch_run run_id now registration source_id selected user_id in
    let stands = after_answers-Stands X registration w launched answers (refl, inr w.started) in
    (stands.0, can_finish X registration w (after_answers X registration launched answers) stands)
