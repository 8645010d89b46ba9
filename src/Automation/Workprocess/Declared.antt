-- ===== src/Automation/Workprocess/Declared.antt =====
-- src/mentorapp/automation/workprocess_engine.py: what `_declared_steps` gives for an accepted graph.
use cbm_mentoring_app.Base.{
  ◌≤◌, String, ◌≡◌, inl, inr, refl, sym, ◌∙◌, ap, true, false, ◌||◌, some, is_some, List, [], ◌∷◌,
  arith, ◌==◌, string_eq, contains, any, count_of, All, Option-cases, Bool-cases, ==-self, All-map,
  subst,
}
use cbm_mentoring_app.Base.Json.{
  Json, Members, null, truth, number, text, array, object, Items, no_items, no_members, member,
  member_or, member_of, is_null,
}
use cbm_mentoring_app.Base.Dict
use cbm_mentoring_app.Base.Dict.{Dict}
use cbm_mentoring_app.Automation.Workprocess.Graph.{
  field_of, step_key_of, steps_in, keys_of, add_key, is_terminal, declare_all, declared_in,
  declared_steps,
}
use cbm_mentoring_app.Automation.Workprocess.Walks.{IsPlace, IsWalkable}

declare_all-keys :
    (d : Dict String Json) (steps : List Json) (k : String)
    → is_some (Dict.get (declare_all d steps) k)
      ≡ (is_some (Dict.get d k) || contains (keys_of steps) k)
unfolding declare_all keys_of
declare_all-keys d [] k = ground arith
declare_all-keys d (step ∷ steps) k = elim (Option-cases (step_key_of step)) [
  | inl p ↦ ground (arith, p, declare_all-keys d steps k)
  | inr (key, p) ↦ ground (
    arith,
    p,
    declare_all-keys (Dict.put d key (field_of step "nextStepKey")) steps k,
    Dict.get-put d key k (field_of step "nextStepKey"),
  )
]

declare_all-other :
    (d : Dict String Json) (steps : List Json) (k : String)
    → contains (keys_of steps) k ≡ false
    → Dict.get (declare_all d steps) k ≡ Dict.get d k
unfolding declare_all keys_of
declare_all-other d [] k h = refl
declare_all-other d (step ∷ steps) k h = elim (Option-cases (step_key_of step)) [
  | inl p ↦ ground (arith, h, p, declare_all-other d steps k)
  | inr (key, p) ↦ ground (
    arith,
    h,
    p,
    declare_all-other (Dict.put d key (field_of step "nextStepKey")) steps k,
    Dict.get-put d key k (field_of step "nextStepKey"),
  )
]

declare_all-step :
    (d : Dict String Json) (step : Json) (steps : List Json) (key : String)
    → step_key_of step ≡ some key
    → declare_all d (step ∷ steps)
      ≡ declare_all (Dict.put d key (field_of step "nextStepKey")) steps
unfolding declare_all
declare_all-step d step steps key p = rw p refl

put_places :
    (known : List String) (d : Dict String Json) (key : String) (next : Json)
    → ((k : String) (next : Json) → Dict.get d k ≡ some next → IsPlace known next)
    → IsPlace known next
    → (k : String) (other : Json) → Dict.get (Dict.put d key next) k ≡ some other
    → IsPlace known other
put_places known d key next h place k other q = elim (Bool-cases (k == key)) [
  | inl same ↦
      subst (λ o. IsPlace known o) (ground (arith, q, same, Dict.get-put d key k next)) place
  | inr differs ↦ h k other (ground (arith, q, differs, Dict.get-put d key k next))
]

declare_all-places :
    (known : List String) (d : Dict String Json) (steps : List Json)
    → ((k : String) (next : Json) → Dict.get d k ≡ some next → IsPlace known next)
    → All (λ step. IsPlace known (field_of step "nextStepKey")) steps
    → (k : String) (next : Json) → Dict.get (declare_all d steps) k ≡ some next
    → IsPlace known next
unfolding declare_all
declare_all-places known d [] h places k next q = h k next q
declare_all-places known d (step ∷ steps) h places k next q =
    elim (Option-cases (step_key_of step)) [
      | inl p ↦ declare_all-places known d steps h places.1 k next (ground (arith, p, q))
      | inr (key, p) ↦
          declare_all-places known (Dict.put d key (field_of step "nextStepKey")) steps
            (put_places known d key (field_of step "nextStepKey") h places.0) places.1 k next
            (sym (ap (λ m. Dict.get m k) (declare_all-step d step steps key p)) ∙ q)
    ]

-- No key occurs twice, from the left.
abbrev IsOnce : List String → Type 0
IsOnce [] = Unit
IsOnce (k ∷ ks) = (contains ks k ≡ false) × IsOnce ks

absent : (ks : List String) (k : String) → count_of (λ j. j == k) ks ≤ 0 → contains ks k ≡ false
absent [] k h = refl
absent (j ∷ ks) k h = ground (arith, h, absent ks k)

count-IsOnce : (ks : List String) → All (λ k. count_of (λ j. j == k) ks ≤ 1) ks → IsOnce ks
count-IsOnce [] h = tt
count-IsOnce (k ∷ ks) h = (
  absent ks k (ground (arith, h.0, ==-self k)),
  count-IsOnce ks (All-map (λ j few. ground (arith, few)) ks h.1),
)

IsOnce-parts :
    (step : Json) (steps : List Json) (key : String)
    → IsOnce (keys_of (step ∷ steps))
    → step_key_of step ≡ some key
    → (contains (keys_of steps) key ≡ false) × IsOnce (keys_of steps)
unfolding keys_of
IsOnce-parts step steps key one p = subst (λ o. IsOnce (add_key o (keys_of steps))) p one

is_null_lem : (value : Json) → is_null value ≡ true → value ≡ null
is_null_lem value h = ground (arith, h)

terminal_next : (step : Json) → is_terminal step ≡ true → field_of step "nextStepKey" ≡ null
unfolding is_terminal
terminal_next step h = is_null_lem (field_of step "nextStepKey") (ground (arith, h))

terminal_declared :
    (d : Dict String Json) (steps : List Json)
    → All (λ step. is_some (step_key_of step) ≡ true) steps
    → IsOnce (keys_of steps)
    → any is_terminal steps ≡ true
    → (t : String) × (Dict.get (declare_all d steps) t ≡ some null)
unfolding declare_all keys_of
terminal_declared d [] keyed one h = ground (arith, h)
terminal_declared d (step ∷ steps) keyed one h = elim (Option-cases (step_key_of step)) [
  | inl p ↦ ground (arith, p, keyed.0)
  | inr (key, p) ↦ elim (Bool-cases (is_terminal step)) [
    | inl ends ↦ (
      key,
      ap (λ m. Dict.get m key) (declare_all-step d step steps key p)
          ∙ declare_all-other (Dict.put d key (field_of step "nextStepKey")) steps key
              (IsOnce-parts step steps key one p).0
          ∙ ground (
            arith,
            ==-self key,
            terminal_next step ends,
            Dict.get-put d key key (field_of step "nextStepKey"),
          ),
    )
    | inr goes_on ↦
        let (t, q) =
          terminal_declared (Dict.put d key (field_of step "nextStepKey")) steps keyed.1
            (IsOnce-parts step steps key one p).1 (ground (arith, h, goes_on)) in
        (t, ap (λ m. Dict.get m t) (declare_all-step d step steps key p) ∙ q)
  ]
]

-- What `_declared_steps` gives for an accepted graph.
pub record IsDeclaration (known : List String) (declared : Dict String Json) : Type 0 where
  pub complete : (k : String) → contains known k ≡ true → is_some (Dict.get declared k) ≡ true
  pub sound : (k : String) → is_some (Dict.get declared k) ≡ true → contains known k ≡ true
  pub places : (k : String) (next : Json) → Dict.get declared k ≡ some next → IsPlace known next
  pub ending : (t : String) × (Dict.get declared t ≡ some null)

abbrev pub keys_in : Members → List String
keys_in graph = keys_of (steps_in (member_of graph "steps"))

array_lem :
    (value : Json) → any is_terminal (steps_in value) ≡ true → (xs : Items) × (value ≡ array xs)
array_lem null h = ground (arith, h)
array_lem (truth _) h = ground (arith, h)
array_lem (number _) h = ground (arith, h)
array_lem (text _) h = ground (arith, h)
array_lem (array xs) h = (xs, refl)
array_lem (object _) h = ground (arith, h)

present_array :
    (graph : Members) (name : String) (xs : Items)
    → member_of graph name ≡ array xs
    → member_or (array no_items) graph name ≡ array xs
present_array no_members name xs h = ground (arith, h)
present_array (member key value rest) name xs h = ground (arith, h, present_array rest name xs)

pub declared_steps_lem :
    (graph : Members)
    → IsWalkable graph
    → declared_steps graph ≡ some (declare_all [] (steps_in (member_of graph "steps")))
unfolding declared_steps
declared_steps_lem graph w =
    let (xs, p) = array_lem (member_of graph "steps") w.terminal in
    ap declared_in (present_array graph "steps" xs p)
    ∙ sym (ap (λ value. some (declare_all [] (steps_in value))) p)

pub declaration :
    (graph : Members)
    → IsWalkable graph
    → IsDeclaration (keys_in graph) (declare_all [] (steps_in (member_of graph "steps")))
unfolding Dict.get
declaration graph w =
    let steps = steps_in (member_of graph "steps") in
    record {
      complete = λ k h. ground (arith, h, declare_all-keys [] steps k);
      sound = λ k h. ground (arith, h, declare_all-keys [] steps k);
      places =
          declare_all-places (keys_in graph) [] steps (λ k next q. ground (arith, q)) w.resolved;
      ending =
          terminal_declared [] steps w.keyed (count-IsOnce (keys_in graph) w.distinct) w.terminal;
    }
