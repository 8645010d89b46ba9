-- ===== src/Api/Creating/Closing.antt =====
-- src/mentorapp/api/record_create.py: when the create form may be closed.
use cbm_mentoring_app.Base.{
  String, ◌≡◌, ◌∙◌, refl, ap, Bool, true, false, not, ◌&&◌, ◌||◌, Option, none, some, is_some, List,
  [], ◌∷◌, ◌++◌, keep, contains, ◌==◌, string_eq, Bool-cases, arith, inl, inr, or_else, ==→eq,
  ==-self,
}
use cbm_mentoring_app.Base.Sorting.{contains-sorted_names}
use cbm_mentoring_app.Base.Dict
use cbm_mentoring_app.Base.Dict.{Dict, IsDict, keys}
use cbm_mentoring_app.Api.Writes.Rules.{Value, null, value_eq}
use cbm_mentoring_app.Api.Writes.Merges.{value_of}
use cbm_mentoring_app.Api.EditSafety.Windows.{CloseAnswer, close_allowed, dirty_window_guard}
use cbm_mentoring_app.Api.Creating.{CreateFlow, union, add_name}
use cbm_mentoring_app.Api.Creating.Flow.{
  request_close, cancel, authored_names, is_authored, close_answer,
}

none_of : (o : Option Value) → is_some o ≡ false → o ≡ none
none_of none h = refl
none_of (some v) h = ground (arith, h)

contains-snoc :
    (names : List String) (name n : String)
    → contains (names ++ name ∷ []) n ≡ (n == name || contains names n)
contains-snoc [] name n = refl
contains-snoc (x ∷ names) name n = ground (arith, contains-snoc names name n)

contains-add_name :
    (name : String) (names : List String) (n : String)
    → contains (add_name name names) n ≡ (n == name || contains names n)
contains-add_name name names n = elim (Bool-cases (contains names name)) [
  | inl old ↦ ground (arith, old, ==→eq n name)
  | inr new ↦ ground (arith, new, contains-snoc names name n)
]

contains-union :
    (xs ys : List String) (n : String) → contains (union xs ys) n ≡ (contains xs n || contains ys n)
contains-union xs [] n = ground arith
contains-union xs (y ∷ ys) n =
    ground (arith, contains-union (add_name y xs) ys n, contains-add_name y xs n)

contains-keep :
    (q : String → Bool) (xs : List String) (n : String)
    → contains (keep q xs) n ≡ (contains xs n && q n)
contains-keep q [] n = refl
contains-keep q (x ∷ xs) n = ground (arith, contains-keep q xs n)

contains-keys : (d : Dict String Value) (n : String) → contains (keys d) n ≡ is_some (Dict.get d n)
unfolding Dict.get
contains-keys [] n = refl
contains-keys ((k, v) ∷ d) n = ground (arith, contains-keys d n)

-- A name that neither dict has differs in neither.
unauthored :
    (flow : CreateFlow) (n : String)
    → is_some (Dict.get flow.values n) ≡ false
    → is_some (Dict.get flow.seed n) ≡ false
    → is_authored flow n ≡ false
unauthored flow n hv hs =
    let v = none_of (Dict.get flow.values n) hv in
    let s = none_of (Dict.get flow.seed n) hs in
    ap (λ o. not (or_else o null == value_of flow.seed n)) v
    ∙ ap (λ o. not (null == or_else o null)) s
    ∙ ap not (==-self null)

contains-authored_names :
    (flow : CreateFlow) (n : String) → contains (authored_names flow) n ≡ is_authored flow n
contains-authored_names flow n =
    let xs = union [] (keys flow.values) in
    let names = union xs (keys flow.seed) in
    let listed =
      contains-sorted_names (keep (is_authored flow) names) n
      ∙ contains-keep (is_authored flow) names n in
    ground (
      arith,
      listed,
      contains-union xs (keys flow.seed) n,
      contains-union [] (keys flow.values) n,
      contains-keys flow.values n,
      contains-keys flow.seed n,
      unauthored flow n,
    )

-- The form holds what it opened with under the name.
abbrev pub IsUnchanged : CreateFlow → String → Type 0
IsUnchanged flow n = value_of flow.values n ≡ value_of flow.seed n

-- The form is closed if no value differs from what it opened with; else the guard names the fields
-- that do, of which there is one at least.
abbrev pub IsHonest : CreateFlow → CloseAnswer → Type 0
IsHonest flow (close_allowed window_key) =
    (window_key ≡ flow.window_key) × ((n : String) → IsUnchanged flow n)
IsHonest flow (dirty_window_guard window_key names) =
    (window_key ≡ flow.window_key)
    × ((n : String) → contains names n ≡ true → ¬ IsUnchanged flow n)
    × ((n : String) → ¬ IsUnchanged flow n → contains names n ≡ true)
    × ((n : String) × ¬ IsUnchanged flow n)

answer-IsHonest :
    (flow : CreateFlow) (names : List String)
    → ((n : String) → contains names n ≡ is_authored flow n)
    → IsHonest flow (close_answer flow.window_key names)
answer-IsHonest flow [] h =
    (refl, λ n. ==→eq (value_of flow.values n) (value_of flow.seed n) (ground (arith, h n)))
answer-IsHonest flow (name ∷ names) h = (
  refl,
  λ n on same. ground (arith, h n, on, same),
  λ n differs. ground (arith, h n, differs),
  (name, λ same. ground (arith, h name, same)),
)

unchanged-allowed :
    (flow : CreateFlow) (answer : CloseAnswer)
    → IsHonest flow answer
    → ((n : String) → IsUnchanged flow n)
    → answer ≡ close_allowed flow.window_key
unchanged-allowed flow (close_allowed window_key) h same = ap close_allowed h.0
unchanged-allowed flow (dirty_window_guard window_key names) (_, _, _, (n, differs)) same =
    absurd (differs (same n))

-- A close of the create form is allowed exactly when the form holds, under every name, what it
-- opened with; else the guard names those fields, and no others, that differ, one at least. After a
-- cancel it is allowed.
pub request_close-IsHonest :
    (flow : CreateFlow)
    → IsHonest flow (request_close flow)
      × (request_close (cancel flow) ≡ close_allowed flow.window_key)
unfolding request_close cancel
request_close-IsHonest flow = (
  answer-IsHonest flow (authored_names flow) (contains-authored_names flow),
  unchanged-allowed (cancel flow) (request_close (cancel flow))
      (answer-IsHonest (cancel flow) (authored_names (cancel flow))
        (contains-authored_names (cancel flow)))
      (λ n. refl),
)
