-- ===== src/Api/Lists/Reading.antt =====
-- src/mentorapp/api/list_engine.py: reading by pages gives the whole list that the count counts.
use cbm_mentoring_app.Api.Lists.Cursors.{
  CursorText, IsCursorText, cursor_codec, decode_cursor-encode_cursor,
}
use cbm_mentoring_app.Base.{
  is_some, subst, if_cases, ℕ, zero, suc, ◌-◌, ◌≤◌, ◌<◌, String, ◌≡◌, ◌∙◌, refl, ap, Bool, true,
  ◌&&◌, Option, none, some, List, [], ◌∷◌, if◌then◌else◌, leb, keep, take, drop, length, string_eq,
  contains, All, inl, inr, arith, Bool-cases, take-append-drop, length-drop,
}
use cbm_mentoring_app.Base.Exec.{ok, err}
use cbm_mentoring_app.Api.Lists.{
  Row, unsortable_field, Position, Codec, asked, position_of, seek, last_row, page_bound, page_of,
  decoded, fetch, fetched, keyset_page, is_served, total_count,
}
use cbm_mentoring_app.Api.Lists.Walks.{
  IsOrdered, HasValue, IsSought, sought, keep-IsSought, keep-after_page,
}
use cbm_mentoring_app.Api.Lists.Pages.{page_of-take, continued, read_pages}

keep-keep_both :
    (s t : Row → Bool) (rows : List Row) → keep (λ row. s row && t row) rows ≡ keep t (keep s rows)
keep-keep_both s t [] = refl
keep-keep_both s t (x ∷ rows) = elim (Bool-cases (s x)) [
  | inl on ↦ ground (arith, on, keep-keep_both s t rows)
  | inr off ↦ ground (arith, off, keep-keep_both s t rows)
]

module _ (codec : Codec) (sort_field : String)
    (law : (at : Position) → codec.decode (codec.encode at) ≡ some at) (columns : List String)
    (known : contains columns sort_field ≡ true) (table : List Row) (page_size : ℕ)
    (filter : Row → Bool) (include_deleted : Bool) where
  abbrev listed : List Row
  listed = keep (is_served filter include_deleted) table

  abbrev remaining : Option Position → List Row
  remaining at = keep (seek sort_field at) listed

  abbrev read : ℕ → Option String → Option (List Row)
  read fuel = read_pages codec sort_field fuel columns table page_size filter include_deleted

  page_of-remaining :
      (at : Option Position) (cursor : Option String)
      → decoded codec sort_field cursor ≡ ok at
      → keyset_page codec sort_field columns table page_size cursor filter include_deleted
        ≡ ok (page_of codec sort_field (page_bound page_size) (remaining at))
  unfolding keyset_page fetch
  page_of-remaining at cursor d =
      ap
        (λ b.
          if b
          then fetched codec sort_field table page_size (is_served filter include_deleted)
              (decoded codec sort_field cursor)
          else err (unsortable_field sort_field))
        known
      ∙ ap (fetched codec sort_field table page_size (is_served filter include_deleted)) d
      ∙ ap
          (λ rows. ok (
            page_of codec sort_field (page_bound page_size)
              (take (suc (page_bound page_size)) rows)))
          (keep-keep_both (is_served filter include_deleted) (seek sort_field at) table)
      ∙ ap ok (page_of-take codec sort_field (page_bound page_size) (remaining at))

  decoded_next :
      (at : Position)
      → is_some at.0 ≡ true
      → decoded codec sort_field (some (codec.encode at)) ≡ ok (some at)
  decoded_next (none, id) valued = absurd (ground (arith, valued))
  decoded_next (some value, id) valued = ap asked (law (some value, id))

  last_row-HasValue :
      (n : ℕ) (x : Row) (rest : List Row)
      → All (HasValue sort_field) (x ∷ rest)
      → HasValue sort_field (last_row x (take n rest))
  last_row-HasValue zero x rest h = h.0
  last_row-HasValue (suc n) x [] h = h.0
  last_row-HasValue (suc n) x (y ∷ rest) h = last_row-HasValue n y rest h.1

  keep-HasValue :
      (t : Row → Bool) (rows : List Row)
      → All (HasValue sort_field) rows
      → All (HasValue sort_field) (keep t rows)
  keep-HasValue t [] h = tt
  keep-HasValue t (x ∷ rows) h =
      if_cases (All (HasValue sort_field)) (t x) (x ∷ keep t rows) (keep t rows)
        (λ _. (h.0, keep-HasValue t rows h.1)) (λ _. keep-HasValue t rows h.1)

  read_step :
      (fuel n : ℕ) (x : Row) (rest : List Row)
      → read fuel (some (codec.encode (position_of sort_field (last_row x (take n rest)))))
        ≡ some (drop n rest)
      → continued codec sort_field (read fuel) (
          ok (
            x ∷ take n rest,
            some (codec.encode (position_of sort_field (last_row x (take n rest)))),
          ))
        ≡ some (x ∷ rest)
  read_step fuel n x rest h = rw (h, continued) (ap (λ ys. some (x ∷ ys)) (take-append-drop n rest))

  page_more :
      (n : ℕ) (x : Row) (rest : List Row)
      → suc n < length (x ∷ rest)
      → page_of codec sort_field (suc n) (x ∷ rest)
        ≡ (x ∷ take n rest, some (codec.encode (position_of sort_field (last_row x (take n rest)))))
  unfolding page_of
  page_more n x rest h = ground (arith, h)

  page_end :
      (n : ℕ) (rows : List Row) → length rows ≤ n → page_of codec sort_field n rows ≡ (rows, none)
  unfolding page_of
  page_end n rows h = ground (arith, h)

  abbrev Reads : ℕ → Position → Type 0
  Reads fuel at =
      is_some at.0 ≡ true
      → length (remaining (some at)) < fuel
      → read fuel (some (codec.encode at)) ≡ some (remaining (some at))

  read_more :
      (fuel n : ℕ) (at : Option Position) (x : Row) (rest : List Row)
      → IsSought sort_field listed
      → All (HasValue sort_field) listed
      → ((next : Position) → Reads fuel next)
      → remaining at ≡ x ∷ rest
      → page_bound page_size ≡ suc n
      → suc n < length (x ∷ rest)
      → length rest < fuel
      → continued codec sort_field
          (read fuel)
          (ok (page_of codec sort_field (page_bound page_size) (x ∷ rest)))
        ≡ some (x ∷ rest)
  read_more fuel n at x rest h v later e bound more enough =
      let next = position_of sort_field (last_row x (take n rest)) in
      let left = keep-after_page sort_field at listed n x rest h e in
      let valued =
        last_row-HasValue n x rest
          (subst (All (HasValue sort_field)) e (keep-HasValue (seek sort_field at) listed v)) in
      let shorter = ap length left ∙ length-drop n rest in
      ap (λ b. continued codec sort_field (read fuel) (ok (page_of codec sort_field b (x ∷ rest))))
        bound
      ∙ ap (λ page. continued codec sort_field (read fuel) (ok page)) (page_more n x rest more)
      ∙ read_step fuel n x rest (later next valued (omega (arith, shorter, enough)) ∙ ap some left)

  read_rows :
      (fuel : ℕ) (at : Option Position) (rows : List Row)
      → IsSought sort_field listed
      → All (HasValue sort_field) listed
      → ((next : Position) → Reads fuel next)
      → remaining at ≡ rows
      → length rows ≤ fuel
      → continued codec sort_field
          (read fuel)
          (ok (page_of codec sort_field (page_bound page_size) rows))
        ≡ some rows
  read_rows fuel at rows h v later e enough =
      elim (Bool-cases (leb (length rows) (page_bound page_size))) [
        | inl fits ↦
            ap (λ page. continued codec sort_field (read fuel) (ok page))
              (page_end (page_bound page_size) rows (ground (arith, fits)))
        | inr more ↦ read_long rows e enough (ground (arith, more))
      ]
    where
      read_long :
          (rows : List Row)
          → remaining at ≡ rows
          → length rows ≤ fuel
          → page_bound page_size < length rows
          → continued codec sort_field
              (read fuel)
              (ok (page_of codec sort_field (page_bound page_size) rows))
            ≡ some rows
      read_long [] e enough more = absurd (omega (arith, more))
      read_long (x ∷ rest) e enough more =
          read_more fuel (page_bound page_size - 1) at x rest h v later e (omega arith)
            (omega (arith, more)) (omega (arith, enough))

  read_from :
      (fuel : ℕ) (at : Option Position) (cursor : Option String)
      → IsSought sort_field listed
      → All (HasValue sort_field) listed
      → decoded codec sort_field cursor ≡ ok at
      → length (remaining at) < fuel
      → read fuel cursor ≡ some (remaining at)
  unfolding read_pages
  read_from zero at cursor h v d enough = absurd (omega (arith, enough))
  read_from (suc fuel) at cursor h v d enough =
      ap (continued codec sort_field (read fuel)) (page_of-remaining at cursor d)
      ∙ read_rows fuel at (remaining at) h v
          (λ next valued less.
            read_from fuel (some next) (some (codec.encode next)) h v (decoded_next next valued)
              less)
          refl (omega (arith, enough))

  keep-true : (rows : List Row) → keep (λ _. true) rows ≡ rows
  keep-true [] = refl
  keep-true (x ∷ rows) = ap (λ ys. x ∷ ys) (keep-true rows)

  length-keep : (t : Row → Bool) (rows : List Row) → length (keep t rows) ≤ length rows
  length-keep t [] = omega arith
  length-keep t (x ∷ rows) = ground (arith, length-keep t rows)

  served_IsSought :
      IsOrdered sort_field table → All (HasValue sort_field) table → IsSought sort_field listed
  served_IsSought ordered values =
      keep-IsSought sort_field (is_served filter include_deleted) table
        (sought sort_field table values ordered)

  read_whole :
      IsOrdered sort_field table
      → All (HasValue sort_field) table
      → (rows : List Row) × (read (suc (length table)) none ≡ some rows)
        × (rows ≡ keep (is_served filter include_deleted) table)
        × (total_count table filter include_deleted ≡ length rows)
  unfolding total_count
  read_whole ordered values = (
    listed,
    read_from (suc (length table)) none none (served_IsSought ordered values)
          (keep-HasValue (is_served filter include_deleted) table values) refl
          (omega (
            arith,
            length-keep (is_served filter include_deleted) table,
            length-keep (λ _. true) listed,
          ))
        ∙ ap some (keep-true listed),
    refl,
    refl,
  )

pub read_pages-total_count :
    (t : CursorText) (is_datetime : Bool) (law : IsCursorText t is_datetime) (sort_field : String)
    (columns : List String)
    → contains columns sort_field ≡ true
    → (table : List Row) (page_size : ℕ) (filter : Row → Bool) (include_deleted : Bool)
    → IsOrdered sort_field table
    → All (HasValue sort_field) table
    → (rows : List Row) × (read_pages
          (cursor_codec t is_datetime)
          sort_field
          (suc (length table))
          columns
          table
          page_size
          filter
          include_deleted
          none
        ≡ some rows)
      × (rows ≡ keep (is_served filter include_deleted) table)
      × (total_count table filter include_deleted ≡ length rows)
read_pages-total_count t is_datetime law sort_field columns known table page_size filter
      include_deleted ordered values =
    read_whole (cursor_codec t is_datetime) sort_field
      (decode_cursor-encode_cursor t is_datetime law) columns known table page_size filter
      include_deleted ordered values
