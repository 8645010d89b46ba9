-- ===== src/Automation/Workprocess/Walks.antt =====
-- src/mentorapp/automation/workprocess_engine.py: what `step_graph_problems` accepts.
use cbm_mentoring_app.Base.{
  ℕ, ◌+◌, ◌≤◌, String, ◌≡◌, ◌⊎◌, inl, inr, refl, sym, ◌∙◌, ap, Bool, true, false, ◌&&◌, not, none,
  some, is_some, List, [], ◌∷◌, ◌++◌, arith, ◌==◌, string_eq, contains, ltb, any, keep, count_of,
  All, All-map, Option-cases,
}
use cbm_mentoring_app.Base.Json.{Json, Members, null, truth, number, text, object, array, member_of}
use cbm_mentoring_app.Base.Options.{append-empty}
use cbm_mentoring_app.Base.Sorting.{contains-sorted_names}
use cbm_mentoring_app.Automation.Workprocess.Graph.{
  Problem, no_such_successor, no_steps, no_such_start, no_terminal, field_of, is_object,
  step_key_of, steps_in, keys_of, when, key_problems, once, duplicates, duplicate_problems,
  is_known, is_dangling, successor_problems, is_terminal, is_empty, graph_problems,
  step_graph_problems,
}

-- A declared step, by its key.
abbrev pub IsDeclared : List String → Json → Type 0
IsDeclared keys value = (s : String) × (value ≡ text s) × (contains keys s ≡ true)

-- The end of the walk, or a declared step.
abbrev pub IsPlace : List String → Json → Type 0
IsPlace keys value = (value ≡ null) ⊎ IsDeclared keys value

-- What the engine needs to walk, and what a run needs to finish.
pub record IsWalkable (document : Members) : Type 0 where
  pub keyed :
      All (λ step. is_some (step_key_of step) ≡ true) (steps_in (member_of document "steps"))
  pub distinct :
      let keys = keys_of (steps_in (member_of document "steps")) in
      All (λ key. count_of (λ k. k == key) keys ≤ 1) keys
  pub resolved :
      let steps = steps_in (member_of document "steps") in
      All (λ step. IsPlace (keys_of steps) (field_of step "nextStepKey")) steps
  pub started :
      IsDeclared
        (keys_of (steps_in (member_of document "steps")))
        (member_of document "startStepKey")
  pub terminal : any is_terminal (steps_in (member_of document "steps")) ≡ true

key_problems_lem :
    (n : ℕ) (steps : List Json)
    → key_problems n steps ≡ []
    → All (λ step. is_some (step_key_of step) ≡ true) steps
unfolding key_problems
key_problems_lem n [] h = tt
key_problems_lem n (step ∷ steps) h = ground (arith, h, key_problems_lem (n + 1) steps)

is_known_lem :
    (known : List String) (value : Json) → is_known known value ≡ some true → IsDeclared known value
unfolding is_known
is_known_lem known null h = ground (arith, h)
is_known_lem known (truth _) h = ground (arith, h)
is_known_lem known (number _) h = ground (arith, h)
is_known_lem known (text s) h = (s, refl, ground (arith, h))
is_known_lem known (array _) h = ground (arith, h)
is_known_lem known (object _) h = ground (arith, h)

dangling_lem :
    (known : List String) (value : Json)
    → is_dangling known value ≡ some false
    → IsPlace known value
unfolding is_dangling is_known
dangling_lem known null h = inl refl
dangling_lem known (truth _) h = ground (arith, h)
dangling_lem known (number _) h = ground (arith, h)
dangling_lem known (text s) h = inr (s, refl, ground (arith, h))
dangling_lem known (array _) h = ground (arith, h)
dangling_lem known (object _) h = ground (arith, h)

step-IsPlace :
    (known : List String) (step : Json) (here : Bool) (n : ℕ) (value : Json)
    → is_dangling known (field_of step "nextStepKey") ≡ some here
    → when (is_object step && here) (no_such_successor n value) ≡ []
    → IsPlace known (field_of step "nextStepKey")
step-IsPlace known (object step) here n value h q =
    dangling_lem known _ (h ∙ ap some (ground (arith, q)))
step-IsPlace known null here n value h q = inl refl
step-IsPlace known (truth _) here n value h q = inl refl
step-IsPlace known (number _) here n value h q = inl refl
step-IsPlace known (text _) here n value h q = inl refl
step-IsPlace known (array _) here n value h q = inl refl

successor_problems_lem :
    (n : ℕ) (known : List String) (steps : List Json)
    → successor_problems n known steps ≡ some []
    → All (λ step. IsPlace known (field_of step "nextStepKey")) steps
unfolding successor_problems
successor_problems_lem n known [] h = tt
successor_problems_lem n known (step ∷ steps) h =
    elim (Option-cases (is_dangling known (field_of step "nextStepKey"))) [
      | inl none_here ↦ ground (arith, h, none_here)
      | inr (here, p) ↦ elim (Option-cases (successor_problems (n + 1) known steps)) [
        | inl none_there ↦ ground (arith, h, p, none_there)
        | inr (there, q) ↦
            let (no_here, no_there) =
              append-empty
                (when (is_object step && here) (no_such_successor n (field_of step "nextStepKey")))
                there (ground (arith, h, p, q)) in
            (
              step-IsPlace known step here n _ p no_here,
              successor_problems_lem (n + 1) known steps (q ∙ ap some no_there),
            )
      ]
    ]

once_lem : (xs : List String) (a : String) → contains (once xs) a ≡ contains xs a
once_lem [] a = refl
once_lem (x ∷ xs) a = ground (arith, once_lem xs a, once_lem xs x)

keep_none :
    (p : String → Bool) (xs : List String)
    → ((a : String) → contains (keep p xs) a ≡ false)
    → All (λ a. p a ≡ false) xs
keep_none p [] h = tt
keep_none p (x ∷ xs) h = (ground (arith, h x), keep_none p xs (λ a. ground (arith, h a)))

not_duplicated :
    (keys : List String)
    → duplicates keys ≡ []
    → (a : String) → contains (keep (λ key. ltb 1 (count_of (λ k. k == key) keys)) keys) a ≡ false
unfolding duplicates
not_duplicated keys h a =
    let twice = keep (λ key. ltb 1 (count_of (λ k. k == key) keys)) keys in
    sym (once_lem twice a) ∙ sym (contains-sorted_names (once twice) a) ∙ ap (λ xs. contains xs a) h

duplicates_lem :
    (keys : List String)
    → duplicates keys ≡ []
    → All (λ key. count_of (λ k. k == key) keys ≤ 1) keys
duplicates_lem keys h =
    All-map (λ key few. ground (arith, few)) keys
      (keep_none (λ key. ltb 1 (count_of (λ k. k == key) keys)) keys (not_duplicated keys h))

no_duplicate_problems : (keys : List String) → duplicate_problems keys ≡ [] → keys ≡ []
no_duplicate_problems [] h = refl
no_duplicate_problems (x ∷ xs) h = ground (arith, h)

problems_lem :
    (document : Members) (dangling : List Problem) (known : Bool)
    → let steps = steps_in (member_of document "steps") in
      let keys = keys_of steps in
      let start = member_of document "startStepKey" in
      successor_problems 0 keys steps ≡ some dangling
      → is_known keys start ≡ some known
      → step_graph_problems (object document)
        ≡ some (
            when (is_empty steps) no_steps
            ++ key_problems 0 steps
            ++ duplicate_problems (duplicates keys)
            ++ dangling
            ++ when (not known) (no_such_start start)
            ++ when (not (is_empty steps) && not (any is_terminal steps)) no_terminal)
unfolding step_graph_problems graph_problems
problems_lem document dangling known p q = rw (p, q) refl

no_successors :
    (document : Members)
    → let steps = steps_in (member_of document "steps") in
      successor_problems 0 (keys_of steps) steps ≡ none
      → step_graph_problems (object document) ≡ none
unfolding step_graph_problems graph_problems
no_successors document p = rw p refl

no_start :
    (document : Members) (dangling : List Problem)
    → let steps = steps_in (member_of document "steps") in
      successor_problems 0 (keys_of steps) steps ≡ some dangling
      → is_known (keys_of steps) (member_of document "startStepKey") ≡ none
      → step_graph_problems (object document) ≡ none
unfolding step_graph_problems graph_problems
no_start document dangling p q = rw (p, q) refl

no_answer : {xs : List Problem} → none ≡ some xs → ⊥
no_answer h = ground (arith, h)

some-injective : (xs ys : List Problem) → some xs ≡ some ys → xs ≡ ys
some-injective xs ys h = ground (arith, h)

when-not : (b : Bool) (p : Problem) → when (not b) p ≡ [] → b ≡ true
when-not b p h = ground (arith, h)

some_terminal :
    (steps : List Json)
    → when (is_empty steps) no_steps ≡ []
    → when (not (is_empty steps) && not (any is_terminal steps)) no_terminal ≡ []
    → any is_terminal steps ≡ true
some_terminal steps g h = ground (arith, g, h)

-- A document in which `step_graph_problems` finds no problem is what the engine can walk: every
-- step declares a text key, no key twice, every successor is `None` or a declared step, the
-- start names a declared step, and some step is terminal.
pub step_graph_problems-IsWalkable :
    (document : Members) → step_graph_problems (object document) ≡ some [] → IsWalkable document
step_graph_problems-IsWalkable document h =
    let steps = steps_in (member_of document "steps") in
    let keys = keys_of steps in
    let start = member_of document "startStepKey" in
    elim (Option-cases (successor_problems 0 keys steps)) [
      | inl none_found ↦ absurd (no_answer (sym (no_successors document none_found) ∙ h))
      | inr (dangling, p) ↦ elim (Option-cases (is_known keys start)) [
        | inl none_known ↦ absurd (no_answer (sym (no_start document dangling p none_known) ∙ h))
        | inr (known, q) ↦
            let whole = some-injective _ _ (sym (problems_lem document dangling known p q) ∙ h) in
            let (first_five, f) = append-empty _ _ whole in
            let (first_four, e) = append-empty _ _ first_five in
            let (first_three, d) = append-empty _ _ first_four in
            let (first_two, c) = append-empty _ _ first_three in
            let (a, b) = append-empty _ _ first_two in
            record {
              keyed = key_problems_lem 0 steps b;
              distinct = duplicates_lem keys (no_duplicate_problems _ c);
              resolved = successor_problems_lem 0 keys steps (p ∙ ap some d);
              started = is_known_lem keys start (q ∙ ap some (when-not known _ e));
              terminal = some_terminal steps a f;
            }
      ]
    ]
