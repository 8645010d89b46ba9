-- ===== src/Automation/Workprocess/Graph.antt =====
-- src/mentorapp/automation/workprocess_engine.py: `step_graph_problems` and `_declared_steps`.
use cbm_mentoring_app.Base.{
  ℕ, ◌+◌, String, Bool, true, false, ◌&&◌, not, Option, none, some, is_some, List, [], ◌∷◌, ◌++◌,
  ◌==◌, string_eq, contains, if◌then◌else◌, ltb, any, keep, count_of,
}
use cbm_mentoring_app.Base.Json.{
  Json, Members, null, text, array, object, items, no_items, member_or, member_of, is_null, as_text,
}
use cbm_mentoring_app.Base.Options.{◌>>=◌}
use cbm_mentoring_app.Base.Dict
use cbm_mentoring_app.Base.Dict.{Dict}
use cbm_mentoring_app.Base.Sorting.{sorted_names}

-- The sentences of the problems, as what each of them says.
pub data Problem : Type 0 where
  not_an_object : Problem
  no_steps : Problem
  no_step_key : ℕ → Problem
  duplicated : List String → Problem
  no_such_successor : ℕ → Json → Problem
  no_such_start : Json → Problem
  no_terminal : Problem

-- `step.get(name)` of a step that may be no object: `None` then, which no use below reads.
abbrev pub field_of : Json → String → Json
field_of (object fields) name = member_of fields name
field_of _ name = null

abbrev pub is_object : Json → Bool
is_object (object _) = true
is_object _ = false

-- The step key, of a mapping that declares a string.
abbrev pub step_key_of : Json → Option String
step_key_of step = as_text (field_of step "stepKey")

-- `document.get("steps")`, and `[]` for what is no list.
abbrev pub steps_in : Json → List Json
steps_in (array xs) = items xs
steps_in _ = []

abbrev pub add_key : Option String → List String → List String
add_key none keys = keys
add_key (some key) keys = key ∷ keys

unfoldable pub keys_of : List Json → List String
keys_of [] = []
keys_of (step ∷ steps) = add_key (step_key_of step) (keys_of steps)

abbrev pub when : Bool → Problem → List Problem
when true problem = problem ∷ []
when false problem = []

unfoldable pub key_problems : ℕ → List Json → List Problem
key_problems position [] = []
key_problems position (step ∷ steps) =
    when (not (is_some (step_key_of step))) (no_step_key position)
    ++ key_problems (position + 1) steps

-- `{key for key in keys if keys.count(key) > 1}`, sorted and without repetitions
abbrev pub once : List String → List String
once [] = []
once (x ∷ xs) = let rest = once xs in if contains rest x then rest else x ∷ rest

unfoldable pub duplicates : List String → List String
duplicates keys = sorted_names (once (keep (λ key. ltb 1 (count_of (λ k. k == key) keys)) keys))

abbrev pub duplicate_problems : List String → List Problem
duplicate_problems [] = []
duplicate_problems (x ∷ xs) = duplicated (x ∷ xs) ∷ []

-- `value in known`; `None` is the `TypeError` that a list or a mapping raises, unhashable.
unfoldable pub is_known : List String → Json → Option Bool
is_known known (text s) = some (contains known s)
is_known known (array _) = none
is_known known (object _) = none
is_known known _ = some false

-- `successor is not None and successor not in known`
unfoldable pub is_dangling : List String → Json → Option Bool
is_dangling known null = some false
is_dangling known successor = do found ← is_known known successor; some (not found)

unfoldable pub successor_problems : ℕ → List String → List Json → Option (List Problem)
successor_problems position known [] = some []
successor_problems position known (step ∷ steps) = do
  let successor = field_of step "nextStepKey"
  dangling ← is_dangling known successor
  rest ← successor_problems (position + 1) known steps
  some (when (is_object step && dangling) (no_such_successor position successor) ++ rest)

unfoldable pub is_terminal : Json → Bool
is_terminal step = is_object step && is_null (field_of step "nextStepKey")

abbrev pub is_empty : List Json → Bool
is_empty [] = true
is_empty _ = false

unfoldable pub graph_problems : Members → Option (List Problem)
graph_problems document = do
  let steps = steps_in (member_of document "steps")
  let keys = keys_of steps
  let start = member_of document "startStepKey"
  dangling ← successor_problems 0 keys steps
  known ← is_known keys start
  some (
      when (is_empty steps) no_steps
      ++ key_problems 0 steps
      ++ duplicate_problems (duplicates keys)
      ++ dangling
      ++ when (not known) (no_such_start start)
      ++ when (not (is_empty steps) && not (any is_terminal steps)) no_terminal)

unfoldable pub step_graph_problems : Json → Option (List Problem)
step_graph_problems (object document) = graph_problems document
step_graph_problems _ = some (not_an_object ∷ [])

abbrev declare : Option String → Json → Dict String Json → Dict String Json
declare none next declared = declared
declare (some key) next declared = Dict.put declared key next

-- The comprehension goes from the left, so that a later step of the same key wins.
unfoldable pub declare_all : Dict String Json → List Json → Dict String Json
declare_all declared [] = declared
declare_all declared (step ∷ steps) =
    declare_all (declare (step_key_of step) (field_of step "nextStepKey") declared) steps

abbrev pub declared_in : Json → Option (Dict String Json)
declared_in (array xs) = some (declare_all [] (items xs))
declared_in (object _) = some []
declared_in (text _) = some []
declared_in _ = none

-- `_declared_steps`; `None` is the `TypeError` of a value that cannot be iterated. The keys of a
-- mapping and the letters of a text are no mappings, and declare nothing.
unfoldable pub declared_steps : Members → Option (Dict String Json)
declared_steps graph = declared_in (member_or (array no_items) graph "steps")
