-- ===== src/Api/Lists/Walks.antt =====
-- src/mentorapp/api/list_engine.py: reading a table page by page, each by the cursor of the one before.
use cbm_mentoring_app.Base.{
  ℕ, zero, suc, String, ◌≡◌, ◌∙◌, refl, sym, ap, subst, Bool, true, false, ◌&&◌, ◌||◌, not, Option,
  none, some, is_some, List, [], ◌∷◌, nat_eq, string_eq, ltb, keep, take, drop, All, inl, inr,
  arith, if_cases, Bool-cases, All-keep, All-keep_test, keep-All,
}
use cbm_mentoring_app.Api.Lists.{
  Row, Position, sql_gt, sql_eq, sort_value, position_of, is_after, seek, last_row,
}

after_trans_value :
    (a b c : Option ℕ) (i j k : ℕ)
    → (sql_gt b a || (sql_eq b a && ltb i j)) ≡ true
    → (sql_gt c b || (sql_eq c b && ltb j k)) ≡ true
    → (sql_gt c a || (sql_eq c a && ltb i k)) ≡ true
after_trans_value (some a) (some b) (some c) i j k p q = ground (arith, p, q)
after_trans_value none none c i j k p q = absurd (ground (arith, p))
after_trans_value none (some b) c i j k p q = absurd (ground (arith, p))
after_trans_value (some a) none c i j k p q = absurd (ground (arith, p))
after_trans_value (some a) (some b) none i j k p q = absurd (ground (arith, q))

after_asym_value :
    (a b : Option ℕ) (i j : ℕ)
    → (sql_gt b a || (sql_eq b a && ltb i j)) ≡ true
    → (sql_gt a b || (sql_eq a b && ltb j i)) ≡ false
after_asym_value (some a) (some b) i j p = ground (arith, p)
after_asym_value none none i j p = ground (arith, p)
after_asym_value none (some b) i j p = ground (arith, p)
after_asym_value (some a) none i j p = ground (arith, p)

keep-keep :
    (s t : Row → Bool) (rows : List Row)
    → ((x : Row) → s x ≡ true → t x ≡ true)
    → keep s (keep t rows) ≡ keep s rows
keep-keep s t [] h = refl
keep-keep s t (x ∷ rows) h = elim (Bool-cases (s x)) [
  | inl sx ↦ ground (arith, sx, h x sx, keep-keep s t rows h)
  | inr no_sx ↦ elim (Bool-cases (t x)) [
    | inl tx ↦ ground (arith, no_sx, tx, keep-keep s t rows h)
    | inr no_tx ↦ ground (arith, no_sx, no_tx, keep-keep s t rows h)
  ]
]

All-last_row :
    (P : Row → Type 0) (x : Row) (rows : List Row) → P x → All P rows → P (last_row x rows)
All-last_row P x [] h hs = h
All-last_row P x (y ∷ rows) h hs = All-last_row P y rows hs.0 hs.1

pub All-take : (P : Row → Type 0) (n : ℕ) (rows : List Row) → All P rows → All P (take n rows)
All-take P zero rows h = tt
All-take P (suc n) [] h = tt
All-take P (suc n) (x ∷ rows) h = (h.0, All-take P n rows h.1)

module _ (sort_field : String) where
  abbrev after : Row → Row → Bool
  after a = is_after sort_field (position_of sort_field a)

  -- `ORDER BY` of the sort column and the key: a row with a value is before one with null.
  abbrev is_null_value : Option ℕ → Bool
  is_null_value none = true
  is_null_value (some _) = false

  abbrev pub comes_before : Row → Row → Bool
  comes_before a b =
      after a b
      || (is_null_value (sort_value sort_field b)
          && (not (is_null_value (sort_value sort_field a)) || ltb a.record_id b.record_id))

  abbrev pub IsOrdered : List Row → Type 0
  IsOrdered [] = Unit
  IsOrdered (row ∷ rows) = All (λ x. comes_before row x ≡ true) rows × IsOrdered rows

  abbrev pub HasValue : Row → Type 0
  HasValue row = is_some (sort_value sort_field row) ≡ true

  -- With no null, the order is the seek's.
  abbrev pub IsSought : List Row → Type 0
  IsSought [] = Unit
  IsSought (row ∷ rows) = All (λ x. after row x ≡ true) rows × IsSought rows

  not_null : (o : Option ℕ) → is_some o ≡ true → is_null_value o ≡ false
  not_null none h = ground (arith, h)
  not_null (some n) h = refl

  sought-All :
      (row : Row) (rows : List Row)
      → All HasValue rows
      → All (λ x. comes_before row x ≡ true) rows
      → All (λ x. after row x ≡ true) rows
  sought-All row [] v h = tt
  sought-All row (x ∷ rows) v h =
      (ground (arith, h.0, not_null (sort_value sort_field x) v.0), sought-All row rows v.1 h.1)

  pub sought : (rows : List Row) → All HasValue rows → IsOrdered rows → IsSought rows
  sought [] v h = tt
  sought (row ∷ rows) v h = (sought-All row rows v.1 h.0, sought rows v.1 h.1)

  not_before : (x y : Row) → after x y ≡ true → after y x ≡ false
  not_before x y h =
      after_asym_value (sort_value sort_field x) (sort_value sort_field y) x.record_id y.record_id h

  not_self : (x : Row) → after x x ≡ false
  not_self x = elim (Bool-cases (after x x)) [ inl h ↦ not_before x x h | inr h ↦ h ]

  -- What is after the last row of the first `suc n` is what they leave.
  keep-after :
      (n : ℕ) (x : Row) (rows : List Row)
      → IsSought (x ∷ rows)
      → keep (after (last_row x (take n rows))) (x ∷ rows) ≡ drop n rows
  keep-after zero x rows h = ground (arith, not_self x, keep-All (after x) rows h.0)
  keep-after (suc n) x [] h = ground (arith, not_self x)
  keep-after (suc n) x (y ∷ rows) h = ground (
    arith,
    keep-after n y rows h.1,
    not_before x (last_row y (take n rows)) (
        All-last_row (λ z. after x z ≡ true) y (take n rows) h.0.0
          (All-take (λ z. after x z ≡ true) n rows h.0.1)),
  )

  seek_closed :
      (at : Option Position) (a b : Row)
      → seek sort_field at a ≡ true
      → after a b ≡ true
      → seek sort_field at b ≡ true
  seek_closed none a b p q = refl
  seek_closed (some (v, id)) a b p q =
      after_trans_value v (sort_value sort_field a) (sort_value sort_field b) id a.record_id
        b.record_id p q

  pub keep-IsSought : (t : Row → Bool) (rows : List Row) → IsSought rows → IsSought (keep t rows)
  keep-IsSought t [] h = tt
  keep-IsSought t (x ∷ rows) h =
      if_cases IsSought (t x) (x ∷ keep t rows) (keep t rows)
        (λ _. (All-keep (λ z. after x z ≡ true) t rows h.0, keep-IsSought t rows h.1))
        (λ _. keep-IsSought t rows h.1)

  -- What the next page starts from: the rows after the last of this one's.
  pub keep-after_page :
      (at : Option Position) (rows : List Row) (n : ℕ) (x : Row) (rest : List Row)
      → IsSought rows
      → keep (seek sort_field at) rows ≡ x ∷ rest
      → keep (after (last_row x (take n rest))) rows ≡ drop n rest
  keep-after_page at rows n x rest h e =
      let r = last_row x (take n rest) in
      let behind =
        subst (All (λ z. seek sort_field at z ≡ true)) e
          (All-keep_test (seek sort_field at) (λ z. seek sort_field at z ≡ true) rows (λ _ p. p)) in
      let here =
        All-last_row (λ z. seek sort_field at z ≡ true) x (take n rest) behind.0
          (All-take (λ z. seek sort_field at z ≡ true) n rest behind.1) in
      sym (keep-keep (after r) (seek sort_field at) rows (λ z p. seek_closed at r z here p))
      ∙ ap (keep (after r)) e
      ∙ keep-after n x rest (subst IsSought e (keep-IsSought (seek sort_field at) rows h))
