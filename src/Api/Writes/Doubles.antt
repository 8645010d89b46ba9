-- ===== src/Api/Writes/Doubles.antt =====
-- src/mentorapp/api/write_engine.py: what it means that the values double a record, read off the
-- registry itself.
use cbm_mentoring_app.Api.Writes.Merges.{value_of}
use cbm_mentoring_app.Base.{
  String, ◌≡◌, inl, inr, ◌∙◌, refl, ap, Bool, true, false, ◌&&◌, ◌||◌, not, none, some, is_some,
  or_else, List, [], ◌∷◌, ◌++◌, map, all, any, contains, ◌==◌, string_eq, if◌then◌else◌, arith,
  IsIn, Bool-cases, Option-cases,
}
use cbm_mentoring_app.Base.Dict
use cbm_mentoring_app.Base.Dict.{Dict}
use cbm_mentoring_app.Base.Sorting.{sorted_names, contains-sorted_names}
use cbm_mentoring_app.Api.Writes.Rules.{text, value_eq, Value, Parsers, SchemaRegistry}
use cbm_mentoring_app.Api.Writes.Changes.{Registry, is_absent}
use cbm_mentoring_app.Api.Writes.Updates.{EntityRecord}
use cbm_mentoring_app.Api.Writes.Matching.{
  normalize_for_match, TextMethods, with_rule, with_rules, match_rules, is_given, field_matches,
  rule_matches,
}
use cbm_mentoring_app.Api.Writes.Found.{is_hit, has_duplicate}

abbrev rows_of : Dict String (List SchemaRegistry) → String → List SchemaRegistry
rows_of rules name = or_else (Dict.get rules name) []

abbrev pub is_of_rule : String → SchemaRegistry → Bool
is_of_rule name row = contains row.duplicate_match_rules name

all-append :
    (q : SchemaRegistry → Bool) (xs ys : List SchemaRegistry)
    → all q (xs ++ ys) ≡ (all q xs && all q ys)
all-append q [] ys = refl
all-append q (x ∷ xs) ys = ground (arith, all-append q xs ys)

module _ (q : SchemaRegistry → Bool) (name : String) where
  with_rule-all :
      (rules : Dict String (List SchemaRegistry)) (n : String) (row : SchemaRegistry)
      → all q (rows_of (with_rule rules n row) name)
        ≡ (all q (rows_of rules name) && (not (name == n) || q row))
  with_rule-all rules n row = ground (
    arith,
    Dict.get-put rules n name (rows_of rules n ++ row ∷ []),
    all-append q (rows_of rules n) (row ∷ []),
  )

  with_rules-all :
      (names : List String) (rules : Dict String (List SchemaRegistry)) (row : SchemaRegistry)
      → all q (rows_of (with_rules rules names row) name)
        ≡ (all q (rows_of rules name) && (not (contains names name) || q row))
  with_rules-all [] rules row = ground arith
  with_rules-all (n ∷ names) rules row =
      ground (arith, with_rules-all names (with_rule rules n row) row, with_rule-all rules n row)

  match_rules-all :
      (registry : Registry) (rules : Dict String (List SchemaRegistry))
      → all q (rows_of (match_rules registry rules) name) ≡ (
          all q (rows_of rules name)
          && all (λ (_, row). not (is_of_rule name row) || q row) registry)
  unfolding match_rules
  match_rules-all [] rules = ground arith
  match_rules-all ((_, row) ∷ registry) rules = ground (
    arith,
    match_rules-all registry (with_rules rules row.duplicate_match_rules row),
    with_rules-all row.duplicate_match_rules rules row,
  )

module _ (name : String) where
  with_rules-names :
      (names : List String) (rules : Dict String (List SchemaRegistry)) (row : SchemaRegistry)
      → is_some (Dict.get (with_rules rules names row) name)
        ≡ (is_some (Dict.get rules name) || contains names name)
  with_rules-names [] rules row = ground arith
  with_rules-names (n ∷ names) rules row = ground (
    arith,
    with_rules-names names (with_rule rules n row) row,
    Dict.get-put rules n name (rows_of rules n ++ row ∷ []),
  )

  match_rules-names :
      (registry : Registry) (rules : Dict String (List SchemaRegistry))
      → is_some (Dict.get (match_rules registry rules) name)
        ≡ (is_some (Dict.get rules name) || any (λ (_, row). is_of_rule name row) registry)
  unfolding match_rules
  match_rules-names [] rules = ground arith
  match_rules-names ((_, row) ∷ registry) rules = ground (
    arith,
    match_rules-names registry (with_rules rules row.duplicate_match_rules row),
    with_rules-names row.duplicate_match_rules rules row,
  )

  contains-keys :
      (rules : Dict String (List SchemaRegistry))
      → contains (Dict.keys rules) name ≡ is_some (Dict.get rules name)
  unfolding Dict.get
  contains-keys [] = refl
  contains-keys ((n, rows) ∷ rules) = ground (arith, contains-keys rules)

any-IsIn :
    {A : Type 0} (t : A → Bool) (xs : List A) → any t xs ≡ true → (x : A) × IsIn x xs × (t x ≡ true)
any-IsIn t [] h = absurd (ground (arith, h))
any-IsIn t (x ∷ xs) h = elim (Bool-cases (t x)) [
  | inl on ↦ (x, inl refl, on)
  | inr off ↦ let (y, there, on) = any-IsIn t xs (ground (arith, h, off)) in (y, inr there, on)
]

IsIn-any :
    {A : Type 0} (t : A → Bool) (xs : List A) (x : A) → IsIn x xs → t x ≡ true → any t xs ≡ true
IsIn-any t [] x there on = absurd there
IsIn-any t (y ∷ xs) x there on = elim there [
  | inl same ↦ ground (arith, on, ap t same)
  | inr later ↦ ground (arith, IsIn-any t xs x later on)
]

module _ (f : String → String × List SchemaRegistry) (t : String × List SchemaRegistry → Bool) where
  any_name :
      (names : List String)
      → any t (map f names) ≡ true
      → (name : String) × (contains names name ≡ true) × (t (f name) ≡ true)
  any_name [] h = absurd (ground (arith, h))
  any_name (n ∷ names) h = elim (Bool-cases (t (f n))) [
    | inl on ↦ (n, ground arith, on)
    | inr off ↦
        let (name, there, on) = any_name names (ground (arith, h, off)) in
        (name, ground (arith, there), on)
  ]

  name_any :
      (names : List String) (name : String)
      → contains names name ≡ true
      → t (f name) ≡ true
      → any t (map f names) ≡ true
  name_any [] name there on = absurd (ground (arith, there))
  name_any (n ∷ names) name there on = elim (string_eq.dec name n) [
    | yes same ↦ ground (arith, on, ap (λ k. t (f k)) same)
    | no other ↦ ground (arith, name_any names name (ground (arith, there, other)) on)
  ]

module _ (methods : TextMethods) (p : Parsers) (columns : List String) (values : Dict String Value)
    (table : List EntityRecord) (registry : Registry) where
  -- The record's field has the value's normal form: in its shadow column, where the entity has one,
  -- else by the database's lower case of the trimmed column, which a null never has.
  abbrev pub has_value : EntityRecord → SchemaRegistry → Bool
  has_value r row =
      let normal = normalize_for_match methods p row.field_type (value_of values row.field_name) in
      let shadow = Prim.Native.String.◌++◌ row.field_name "Normalized" in
      let column = methods.sql_lower_trim (value_of r.columns row.field_name) in
      if contains columns shadow
      then value_of r.columns shadow == text normal
      else elim column [ none ↦ false | some s ↦ s == normal ]

  -- Some field is of the rule, and the values give every field of the rule, each of them matching
  -- the record's.
  abbrev pub doubles : String → EntityRecord → Bool
  doubles name r =
      any (λ (_, row). is_of_rule name row) registry
      && all
          (λ (_, row).
            not (is_of_rule name row) || not (is_absent (Dict.get values row.field_name)))
          registry
      && all (λ (_, row). not (is_of_rule name row) || has_value r row) registry

  -- A rule by which the values double a record that is not deleted.
  abbrev pub IsDoubled : Type 0
  IsDoubled =
      (name : String) × (r : EntityRecord) × IsIn r table
      × (r.deleted_at ≡ none)
      × (doubles name r ≡ true)

  abbrev rules : Dict String (List SchemaRegistry)
  rules = match_rules registry []

  abbrev named : String → String × List SchemaRegistry
  named name = (name, rows_of rules name)

  abbrev names : List String
  names = sorted_names (Dict.keys rules)

  names_known :
      (name : String) → contains names name ≡ any (λ (_, row). is_of_rule name row) registry
  unfolding Dict.get
  names_known name =
      contains-sorted_names (Dict.keys rules) name
      ∙ contains-keys name rules
      ∙ match_rules-names name registry []

  given_lem :
      (name : String)
      → is_given methods p columns values (rows_of rules name)
        ≡ all
            (λ (_, row).
              not (is_of_rule name row) || not (is_absent (Dict.get values row.field_name)))
            registry
  unfolding Dict.get
  given_lem name =
      match_rules-all (λ row. not (is_absent (Dict.get values row.field_name))) name registry []

  has_value_lem :
      (r : EntityRecord) (row : SchemaRegistry)
      → field_matches methods p columns values r row ≡ has_value r row
  has_value_lem r row =
      elim (Option-cases (methods.sql_lower_trim (value_of r.columns row.field_name))) [
        | inl e ↦ ground (arith, e)
        | inr (s, e) ↦ ground (arith, e)
      ]

  all_values :
      (r : EntityRecord) (rows : List SchemaRegistry)
      → all (field_matches methods p columns values r) rows ≡ all (has_value r) rows
  all_values r [] = refl
  all_values r (row ∷ rows) = ground (arith, has_value_lem r row, all_values r rows)

  matches_lem :
      (name : String) (r : EntityRecord)
      → all (field_matches methods p columns values r) (rows_of rules name)
        ≡ all (λ (_, row). not (is_of_rule name row) || has_value r row) registry
  unfolding Dict.get
  matches_lem name r =
      all_values r (rows_of rules name) ∙ match_rules-all (has_value r) name registry []

  pub hit-IsDoubled : has_duplicate methods p columns values table registry ≡ true → IsDoubled
  hit-IsDoubled h =
      let hit = is_hit methods p columns values table in
      let (name, there, on) = any_name named hit names h in
      let (r, in_table, matches) =
        any-IsIn (rule_matches methods p columns values false (rows_of rules name)) table
          (ground (arith, on)) in
      (
        name,
        r,
        in_table,
        ground (arith, matches),
        ground (arith, there, names_known name, on, given_lem name, matches, matches_lem name r),
      )

  pub IsDoubled-hit : IsDoubled → has_duplicate methods p columns values table registry ≡ true
  IsDoubled-hit (name, r, in_table, live, on) =
      let found =
        IsIn-any (rule_matches methods p columns values false (rows_of rules name)) table r in_table
          (ground (arith, live, on, matches_lem name r)) in
      name_any named (is_hit methods p columns values table) names name
        (ground (arith, on, names_known name)) (ground (arith, on, given_lem name, found))
