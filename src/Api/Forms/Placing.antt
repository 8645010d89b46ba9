-- ===== src/Api/Forms/Placing.antt =====
-- src/mentorapp/api/form_validation.py: `place_save_errors`, where the errors of a save go.
use cbm_mentoring_app.Base.{
  Bool-cases, inl, inr, if◌then◌else◌, or_else, ap, ℕ, suc, ◌+◌, ◌≤◌, String, ◌≡◌, ◌∙◌, refl, sym,
  Bool, true, false, ◌||◌, not, Option, none, some, is_some, List, [], ◌∷◌, map, keep, nat_eq,
  string_eq, leb, contains, count_of, All, arith, if_cases, All-keep_test,
}
use cbm_mentoring_app.Base.Dict
use cbm_mentoring_app.Base.Dict.{Dict}
use cbm_mentoring_app.Api.Writes.Rules.{ApiError}
use cbm_mentoring_app.Api.Forms.{
  FieldSettings, first_field, display_order, place_of_name, is_displayed, sort_key, insert_error,
  sorted_errors, place_save_errors,
}

abbrev pub field_names : List FieldSettings → List String
field_names = map (λ f. f.field_name)

get-display_order :
    (fields : List FieldSettings) (i : ℕ) (order : Dict String ℕ) (name : String)
    → is_some (Dict.get (display_order fields i order) name)
      ≡ (contains (field_names fields) name || is_some (Dict.get order name))
unfolding display_order
get-display_order [] i order name = ground arith
get-display_order (f ∷ fields) i order name = ground (
  arith,
  get-display_order fields (suc i) (Dict.put order f.field_name i) name,
  Dict.get-put order f.field_name name i,
)

-- An error of a field that the form shows.
abbrev pub is_shown : List FieldSettings → Option String → Bool
is_shown fields none = false
is_shown fields (some name) = contains (field_names fields) name

abbrev pub order_of : List FieldSettings → Dict String ℕ
order_of fields = display_order fields 0 []

is_displayed_name :
    (fields : List FieldSettings) (name : Option String)
    → is_some (place_of_name (order_of fields) name) ≡ is_shown fields name
unfolding Dict.get
is_displayed_name fields none = refl
is_displayed_name fields (some name) = ground (arith, get-display_order fields 0 [] name)

module _ (order : Dict String ℕ) where
  -- In display order, an error is not before one that stands earlier.
  abbrev pub IsInOrder : List ApiError → Type 0
  IsInOrder [] = Unit
  IsInOrder (e ∷ errors) = All (λ x. sort_key order e ≤ sort_key order x) errors × IsInOrder errors

  All-insert_error :
      (P : ApiError → Type 0) (e : ApiError) (xs : List ApiError)
      → P e
      → All P xs
      → All P (insert_error order e xs)
  unfolding insert_error
  All-insert_error P e [] h hs = (h, tt)
  All-insert_error P e (x ∷ xs) h hs = ground (arith, h, hs, All-insert_error P e xs h hs.1)

  All-le :
      (a b : ℕ) (xs : List ApiError)
      → a ≤ b
      → All (λ x. b ≤ sort_key order x) xs
      → All (λ x. a ≤ sort_key order x) xs
  All-le a b [] h hs = tt
  All-le a b (x ∷ xs) h hs = (omega (arith, h, hs.0), All-le a b xs h hs.1)

  insert_error-IsInOrder :
      (e : ApiError) (xs : List ApiError) → IsInOrder xs → IsInOrder (insert_error order e xs)
  unfolding insert_error
  insert_error-IsInOrder e [] h = (tt, tt)
  insert_error-IsInOrder e (x ∷ xs) h =
      if_cases IsInOrder (leb (sort_key order e) (sort_key order x)) (e ∷ x ∷ xs)
        (x ∷ insert_error order e xs)
        (λ le. (
          (
            ground (arith, le),
            All-le (sort_key order e) (sort_key order x) xs (ground (arith, le)) h.0,
          ),
          h,
        ))
        (λ gt. (
          All-insert_error (λ z. sort_key order x ≤ sort_key order z) e xs (ground (arith, gt)) h.0,
          insert_error-IsInOrder e xs h.1,
        ))

  count_of-insert_error :
      (t : ApiError → Bool) (e : ApiError) (xs : List ApiError)
      → count_of t (insert_error order e xs) ≡ count_of t (e ∷ xs)
  unfolding insert_error
  count_of-insert_error t e [] = refl
  count_of-insert_error t e (x ∷ xs) = ground (arith, count_of-insert_error t e xs)

  count_of-sorted_errors :
      (t : ApiError → Bool) (xs : List ApiError)
      → count_of t (sorted_errors order xs) ≡ count_of t xs
  unfolding sorted_errors
  count_of-sorted_errors t [] = refl
  count_of-sorted_errors t (x ∷ xs) =
      ground
        (arith, count_of-sorted_errors t xs, count_of-insert_error t x (sorted_errors order xs))

  sorted_errors-IsInOrder : (xs : List ApiError) → IsInOrder (sorted_errors order xs)
  unfolding sorted_errors
  sorted_errors-IsInOrder [] = tt
  sorted_errors-IsInOrder (x ∷ xs) =
      insert_error-IsInOrder x (sorted_errors order xs) (sorted_errors-IsInOrder xs)

  All-sorted_errors :
      (P : ApiError → Type 0) (xs : List ApiError) → All P xs → All P (sorted_errors order xs)
  unfolding sorted_errors
  All-sorted_errors P [] h = tt
  All-sorted_errors P (x ∷ xs) h =
      All-insert_error P x (sorted_errors order xs) h.0 (All-sorted_errors P xs h.1)

count_of-keep :
    (t q : ApiError → Bool) (xs : List ApiError)
    → count_of t (keep q xs) + count_of t (keep (λ e. not (q e)) xs) ≡ count_of t xs
count_of-keep t q [] = refl
count_of-keep t q (x ∷ xs) = ground (arith, count_of-keep t q xs)

-- How many fields the form shows before the field of a name, the last one of that name.
abbrev pub fields_before : List FieldSettings → String → ℕ
fields_before [] name = 0
fields_before (f ∷ fields) name =
    let rest = suc (fields_before fields name) in
    if contains (field_names fields) name then rest else 0

display_order-absent :
    (fields : List FieldSettings) (i : ℕ) (order : Dict String ℕ) (name : String)
    → contains (field_names fields) name ≡ false
    → Dict.get (display_order fields i order) name ≡ Dict.get order name
unfolding display_order
display_order-absent [] i order name h = refl
display_order-absent (f ∷ fields) i order name h = ground (
  arith,
  h,
  display_order-absent fields (suc i) (Dict.put order f.field_name i) name,
  Dict.get-put order f.field_name name i,
)

display_order-fields_before :
    (fields : List FieldSettings) (i : ℕ) (order : Dict String ℕ) (name : String)
    → contains (field_names fields) name ≡ true
    → Dict.get (display_order fields i order) name ≡ some (i + fields_before fields name)
unfolding display_order
display_order-fields_before [] i order name h = ground (arith, h)
display_order-fields_before (f ∷ fields) i order name h =
    elim (Bool-cases (contains (field_names fields) name)) [
      | inl later ↦
          display_order-fields_before fields (suc i) (Dict.put order f.field_name i) name later
          ∙ ap some (ground (arith, later))
      | inr here ↦ ground (
        arith,
        h,
        here,
        display_order-absent fields (suc i) (Dict.put order f.field_name i) name here,
        Dict.get-put order f.field_name name i,
      )
    ]

abbrev pub place_on_form : List FieldSettings → Option String → ℕ
place_on_form fields none = 0
place_on_form fields (some name) = fields_before fields name

-- No error stands before one of a field that the form shows earlier.
abbrev pub IsInFieldOrder : List FieldSettings → List ApiError → Type 0
IsInFieldOrder fields [] = Unit
IsInFieldOrder fields (e ∷ errors) =
    All (λ x. place_on_form fields e.field_name ≤ place_on_form fields x.field_name) errors
    × IsInFieldOrder fields errors

abbrev pub IsFocus : List ApiError → Option String → Type 0
IsFocus [] focus = focus ≡ none
IsFocus (e ∷ errors) focus = focus ≡ e.field_name

place_of_shown :
    (fields : List FieldSettings) (name : Option String)
    → is_shown fields name ≡ true
    → or_else (place_of_name (order_of fields) name) 0 ≡ place_on_form fields name
place_of_shown fields none h = refl
place_of_shown fields (some name) h = ground (arith, display_order-fields_before fields 0 [] name h)

shown_order :
    (fields : List FieldSettings) (e : ApiError) (xs : List ApiError)
    → is_shown fields e.field_name ≡ true
    → All (λ x. is_shown fields x.field_name ≡ true) xs
    → All (λ x. sort_key (order_of fields) e ≤ sort_key (order_of fields) x) xs
    → All (λ x. place_on_form fields e.field_name ≤ place_on_form fields x.field_name) xs
shown_order fields e [] h hs le = tt
shown_order fields e (x ∷ xs) h hs le = (
  omega
      (arith, le.0, place_of_shown fields e.field_name h, place_of_shown fields x.field_name hs.0),
  shown_order fields e xs h hs.1 le.1,
)

shown-IsInFieldOrder :
    (fields : List FieldSettings) (xs : List ApiError)
    → All (λ x. is_shown fields x.field_name ≡ true) xs
    → IsInOrder (order_of fields) xs
    → IsInFieldOrder fields xs
shown-IsInFieldOrder fields [] h le = tt
shown-IsInFieldOrder fields (x ∷ xs) h le =
    (shown_order fields x xs h.0 h.1 le.0, shown-IsInFieldOrder fields xs h.1 le.1)

first_field-IsFocus : (xs : List ApiError) → IsFocus xs (first_field xs)
first_field-IsFocus [] = refl
first_field-IsFocus (x ∷ xs) = refl

-- The errors of a failed save, placed on the form: each one is either inline or at form level, as
-- often as the save reported it; inline stand those of fields that the form shows, in the order in
-- which it shows the fields, and at form level those of no field or of one that it does not show;
-- and the focus is on the field of the first inline error, and on none where there is none.
pub place_save_errors_lem :
    (fields : List FieldSettings) (errors : List ApiError) (t : ApiError → Bool)
    → let s = place_save_errors fields errors in
      (count_of t s.inline + count_of t s.form_level ≡ count_of t errors)
      × All (λ e. is_shown fields e.field_name ≡ true) s.inline
      × All (λ e. is_shown fields e.field_name ≡ false) s.form_level
      × IsInFieldOrder fields s.inline
      × IsFocus s.inline s.focus_field_name
unfolding place_save_errors
place_save_errors_lem fields errors t =
    let order = order_of fields in
    let shown = keep (is_displayed order) errors in
    let all_shown =
      All-sorted_errors order (λ e. is_shown fields e.field_name ≡ true) shown
        (All-keep_test (is_displayed order) (λ e. is_shown fields e.field_name ≡ true) errors
          (λ e h. sym (is_displayed_name fields e.field_name) ∙ h)) in
    (
      ground (
        arith,
        count_of-sorted_errors order t shown,
        count_of-keep t (is_displayed order) errors,
      ),
      all_shown,
      All-keep_test (λ e. not (is_displayed order e)) (λ e. is_shown fields e.field_name ≡ false)
          errors (λ e h. ground (arith, h, is_displayed_name fields e.field_name)),
      shown-IsInFieldOrder fields (sorted_errors order shown) all_shown
          (sorted_errors-IsInOrder order shown),
      first_field-IsFocus (sorted_errors order shown),
    )
