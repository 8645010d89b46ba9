-- ===== src/Api/Lists/Pages.antt =====
-- src/mentorapp/api/list_engine.py: one page, and the whole list read page by page.
use cbm_mentoring_app.Base.{
  ℕ, zero, suc, ◌≤◌, String, ◌≡◌, refl, ap, Bool, true, ◌&&◌, ◌||◌, Option, none, some, is_some,
  List, [], ◌∷◌, ◌++◌, nat_eq, string_eq, ltb, leb, keep, take, length, contains, All, inl, inr,
  ◌⊎◌, arith, if_cases, Bool-cases, All-keep_test,
}
use cbm_mentoring_app.Base.Exec.{Result, ok, err}
use cbm_mentoring_app.Api.Lists.{
  Row, ListError, unsortable_field, Position, Codec, sql_gt, sql_eq, sort_value, asked, seek,
  page_bound, page_of, cursor_of, decoded, fetch, fetched, keyset_page, is_served,
}
use cbm_mentoring_app.Api.Lists.Walks.{HasValue, All-take}

length-take : (n : ℕ) (rows : List Row) → length (take n rows) ≤ n
length-take zero rows = omega arith
length-take (suc n) [] = omega arith
length-take (suc n) (x ∷ rows) = omega (arith, length-take n rows)

length-take_full : (n : ℕ) (rows : List Row) → n ≤ length rows → length (take n rows) ≡ n
length-take_full zero rows h = omega arith
length-take_full (suc n) [] h = absurd (omega (arith, h))
length-take_full (suc n) (x ∷ rows) h = omega (arith, length-take_full n rows (omega (arith, h)))

take_all : (n : ℕ) (rows : List Row) → length rows ≤ n → take n rows ≡ rows
take_all zero [] h = refl
take_all zero (x ∷ rows) h = absurd (omega (arith, h))
take_all (suc n) [] h = refl
take_all (suc n) (x ∷ rows) h = ap (λ ys. x ∷ ys) (take_all n rows (omega (arith, h)))

take-take : (n : ℕ) (rows : List Row) → take n (take (suc n) rows) ≡ take n rows
take-take zero rows = refl
take-take (suc n) [] = refl
take-take (suc n) (x ∷ rows) = ap (λ ys. x ∷ ys) (take-take n rows)

module _ (codec : Codec) (sort_field : String) where
  -- A page as it comes from all the rows that the query could give.
  pub page_of-take :
      (n : ℕ) (rows : List Row)
      → page_of codec sort_field n (take (suc n) rows) ≡ page_of codec sort_field n rows
  unfolding page_of
  page_of-take n rows = elim (Bool-cases (leb (length rows) n)) [
    | inl fits ↦ ap (page_of codec sort_field n) (take_all (suc n) rows (ground (arith, fits)))
    | inr more ↦
        ground (arith, more, length-take_full (suc n) rows (ground (arith, more)), take-take n rows)
  ]

  -- A page is never longer than the engine's bound, which is at most 200, and it is full when there
  -- is a next one.
  abbrev pub IsBounded : ℕ → Result ListError (List Row × Option String) → Type 0
  IsBounded page_size (err e) = Unit
  IsBounded page_size (ok (rows, next)) =
      (length rows ≤ page_bound page_size) × ((next ≡ none) ⊎ (length rows ≡ page_bound page_size))

  page_of-IsBounded :
      (page_size : ℕ) (rows : List Row)
      → IsBounded page_size (ok (page_of codec sort_field (page_bound page_size) rows))
  unfolding page_of
  page_of-IsBounded page_size rows =
      if_cases (λ page. IsBounded page_size (ok page)) (leb (length rows) (page_bound page_size))
        (rows, none)
        (
          take (page_bound page_size) rows,
          cursor_of codec sort_field (take (page_bound page_size) rows),
        )
        (λ fits. (ground (arith, fits), inl refl))
        λ more.
          let full = length-take_full (page_bound page_size) rows (ground (arith, more)) in
          (omega (arith, full), inr full)

  fetched-IsBounded :
      (table : List Row) (page_size : ℕ) (served : Row → Bool)
      (at : Result ListError (Option Position))
      → IsBounded page_size (fetched codec sort_field table page_size served at)
  unfolding fetch
  fetched-IsBounded table page_size served (err e) = tt
  fetched-IsBounded table page_size served (ok at) =
      page_of-IsBounded page_size (
        take (suc (page_bound page_size))
          (keep (λ row. served row && seek sort_field at row) table))

  page_bounds :
      (columns : List String) (table : List Row) (page_size : ℕ) (cursor : Option String)
      (filter : Row → Bool) (include_deleted : Bool)
      → (page_bound page_size ≤ 200)
        × (1 ≤ page_bound page_size)
        × IsBounded page_size
            (keyset_page codec sort_field columns table page_size cursor filter include_deleted)
  unfolding keyset_page
  page_bounds columns table page_size cursor filter include_deleted = (
    omega arith,
    omega arith,
    if_cases (IsBounded page_size) (contains columns sort_field)
        (fetched codec sort_field table page_size (is_served filter include_deleted)
          (decoded codec sort_field cursor))
        (err (unsortable_field sort_field))
        (λ _.
          fetched-IsBounded table page_size (is_served filter include_deleted)
            (decoded codec sort_field cursor))
        (λ _. tt),
  )

  abbrev pub AllOfPage : (Row → Type 0) → Result ListError (List Row × Option String) → Type 0
  AllOfPage P (err e) = Unit
  AllOfPage P (ok (rows, next)) = All P rows

  after_value :
      (at row : Option ℕ) (i j : ℕ)
      → (sql_gt row at || (sql_eq row at && ltb i j)) ≡ true
      → is_some row ≡ true
  after_value at (some v) i j h = refl
  after_value none none i j h = ground (arith, h)
  after_value (some a) none i j h = ground (arith, h)

  page_of-All :
      (P : Row → Type 0) (n : ℕ) (rows : List Row)
      → All P rows
      → AllOfPage P (ok (page_of codec sort_field n rows))
  unfolding page_of
  page_of-All P n rows h =
      if_cases (λ page. AllOfPage P (ok page)) (leb (length rows) n) (rows, none)
        (take n rows, cursor_of codec sort_field (take n rows)) (λ _. h) (λ _. All-take P n rows h)

  decoded_page :
      (table : List Row) (page_size : ℕ) (served : Row → Bool) (at : Option Position)
      → AllOfPage (HasValue sort_field) (fetched codec sort_field table page_size served (asked at))
  unfolding fetch
  decoded_page table page_size served none = tt
  decoded_page table page_size served (some (none, id)) = tt
  decoded_page table page_size served (some (some v, id)) =
      page_of-All (HasValue sort_field) (page_bound page_size) _ (
        All-take (HasValue sort_field) (suc (page_bound page_size)) _ (
          All-keep_test _ (HasValue sort_field) table (λ row h.
            after_value (some v) (sort_value sort_field row) id row.record_id (ground (arith, h)))))

  keyset_page-HasValue :
      (columns : List String) (table : List Row) (page_size : ℕ) (cursor : String)
      (filter : Row → Bool) (include_deleted : Bool)
      → AllOfPage (HasValue sort_field) (
          keyset_page codec sort_field columns table page_size (some cursor) filter include_deleted)
  unfolding keyset_page
  keyset_page-HasValue columns table page_size cursor filter include_deleted =
      if_cases (AllOfPage (HasValue sort_field)) (contains columns sort_field)
        (fetched codec sort_field table page_size (is_served filter include_deleted)
          (decoded codec sort_field (some cursor)))
        (err (unsortable_field sort_field))
        (λ _. decoded_page table page_size (is_served filter include_deleted) (codec.decode cursor))
        (λ _. tt)

  given_cursor :
      (columns : List String) (table : List Row) (page_size : ℕ) (cursor : Option String)
      (filter : Row → Bool) (include_deleted : Bool)
      → is_some cursor ≡ true
      → AllOfPage
          (HasValue sort_field)
          (keyset_page codec sort_field columns table page_size cursor filter include_deleted)
  given_cursor columns table page_size none filter include_deleted given =
      absurd (ground (arith, given))
  given_cursor columns table page_size (some cursor) filter include_deleted given =
      keyset_page-HasValue columns table page_size cursor filter include_deleted

  -- Whatever page size is asked for, a page that is given is not longer than the engine's bound,
  -- which is from 1 to 200, and it is exactly as long when it comes with a cursor. A page that a cursor asks for has
  -- no row with null in the sort column.
  pub keyset_page-IsBounded :
      (columns : List String) (table : List Row) (page_size : ℕ) (cursor : Option String)
      (filter : Row → Bool) (include_deleted : Bool)
      → let page =
          keyset_page codec sort_field columns table page_size cursor filter include_deleted in
        (page_bound page_size ≤ 200)
        × (1 ≤ page_bound page_size)
        × IsBounded page_size page
        × (is_some cursor ≡ true → AllOfPage (HasValue sort_field) page)
  keyset_page-IsBounded columns table page_size cursor filter include_deleted =
      let (high, low, bounded) =
        page_bounds columns table page_size cursor filter include_deleted in
      (high, low, bounded, given_cursor columns table page_size cursor filter include_deleted)

  -- The whole list, as a client reads it: page by page, each by the cursor of the one before.
  -- `none` for a refused page, and when the fuel ends first.
  abbrev pub continued :
      (Option String → Option (List Row))
      → Result ListError (List Row × Option String)
      → Option (List Row)
  continued more (err e) = none
  continued more (ok (rows, none)) = some rows
  continued more (ok (rows, some next)) = elim (more (some next)) [
    | none ↦ none
    | some rest ↦ some (rows ++ rest)
  ]

  unfoldable pub read_pages :
      ℕ → List String → List Row → ℕ → (Row → Bool) → Bool → Option String → Option (List Row)
  read_pages zero columns table page_size filter include_deleted cursor = none
  read_pages (suc fuel) columns table page_size filter include_deleted cursor =
      continued (read_pages fuel columns table page_size filter include_deleted)
        (keyset_page codec sort_field columns table page_size cursor filter include_deleted)
