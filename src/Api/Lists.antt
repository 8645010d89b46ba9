-- ===== src/Api/Lists.antt =====
-- src/mentorapp/api/list_engine.py: keyset pages and the count beside them. The table is the list of
-- its rows as `ORDER BY` of the sort column and the key gives them, nulls last as on PostgreSQL;
-- the filters of a read are one test.
pub mod Cursors
pub mod Walks
pub mod Pages
pub mod Reading
mod Examples
use cbm_mentoring_app.Base.{
  ℕ, zero, suc, ◌+◌, ◌<◌, min, max, String, ◌≡◌, Bool, true, false, ◌&&◌, ◌||◌, not, Option, none,
  some, is_some, or_else, List, [], ◌∷◌, ◌++◌, ◌==◌, nat_eq, string_eq, if◌then◌else◌, ltb, leb,
  keep, take, length, contains, All, inl, inr, ◌⊎◌,
}
use cbm_mentoring_app.Base.Dict
use cbm_mentoring_app.Base.Dict.{Dict}
use cbm_mentoring_app.Base.Exec.{Result, ok, err}

-- A row; a column's value is a number of its own order, or null.
pub record Row : Type 0 where
  pub record_id : ℕ
  pub deleted_at : Option ℕ
  pub columns : Dict String (Option ℕ)

pub data ListError : Type 0 where
  unsortable_field : String → ListError
  invalid_cursor : ListError
  argument_error : ListError

-- The sort value and the record id of the last row.
abbrev pub Position : Type 0
Position = Option ℕ × ℕ

-- JSON and base64 of a position; `decode` is `none` for a text that the engine did not mint.
pub record Codec : Type 0 where
  pub encode : Position → String
  pub decode : String → Option Position

abbrev pub max_page_size : ℕ
max_page_size = 200

-- SQL's `a > b` and `a = b`: neither holds of a null.
abbrev pub sql_gt : Option ℕ → Option ℕ → Bool
sql_gt (some a) (some b) = ltb b a
sql_gt _ _ = false

abbrev pub sql_eq : Option ℕ → Option ℕ → Bool
sql_eq (some a) (some b) = a == b
sql_eq _ _ = false

module _ (sort_field : String) where
  abbrev pub sort_value : Row → Option ℕ
  sort_value row = or_else (Dict.get row.columns sort_field) none

  abbrev pub position_of : Row → Position
  position_of row = (sort_value row, row.record_id)

  -- The seek predicate.
  abbrev pub is_after : Position → Row → Bool
  is_after (v, id) row =
      sql_gt (sort_value row) v || (sql_eq (sort_value row) v && ltb id row.record_id)

  abbrev pub seek : Option Position → Row → Bool
  seek none row = true
  seek (some position) row = is_after position row

abbrev pub last_row : Row → List Row → Row
last_row row [] = row
last_row row (next ∷ rows) = last_row next rows

-- The page size that the engine goes by.
abbrev pub page_bound : ℕ → ℕ
page_bound page_size = max 1 (min page_size max_page_size)

-- The rows that a read is over: a deleted one only where it asks for those.
abbrev pub is_served : (Row → Bool) → Bool → Row → Bool
is_served filter include_deleted row =
    filter row && (include_deleted || not (is_some row.deleted_at))

-- The position that a cursor's decoding gives. Of a null, the comparison of the seek raises.
abbrev pub asked : Option Position → Result ListError (Option Position)
asked none = err invalid_cursor
asked (some (none, id)) = err argument_error
asked (some (some value, id)) = ok (some (some value, id))

module _ (codec : Codec) (sort_field : String) where
  abbrev pub cursor_of : List Row → Option String
  cursor_of [] = none
  cursor_of (row ∷ rows) = some (codec.encode (position_of sort_field (last_row row rows)))

  -- What the query gave is one row longer than the page when there is a next one.
  unfoldable pub page_of : ℕ → List Row → List Row × Option String
  page_of n rows =
      if leb (length rows) n then (rows, none) else (take n rows, cursor_of (take n rows))

  abbrev pub decoded : Option String → Result ListError (Option Position)
  decoded none = ok none
  decoded (some cursor) = asked (codec.decode cursor)

  unfoldable pub fetch : List Row → ℕ → (Row → Bool) → Option Position → List Row × Option String
  fetch table page_size served at =
      let n = page_bound page_size in
      page_of n (take (suc n) (keep (λ row. served row && seek sort_field at row) table))

  abbrev pub fetched :
      List Row
      → ℕ
      → (Row → Bool)
      → Result ListError (Option Position)
      → Result ListError (List Row × Option String)
  fetched table page_size served (err e) = err e
  fetched table page_size served (ok at) = ok (fetch table page_size served at)

  unfoldable pub keyset_page :
      List String
      → List Row
      → ℕ
      → Option String
      → (Row → Bool)
      → Bool
      → Result ListError (List Row × Option String)
  keyset_page columns table page_size cursor filter include_deleted =
      if contains columns sort_field
      then fetched table page_size (is_served filter include_deleted) (decoded cursor)
      else err (unsortable_field sort_field)

-- `totalCount` of the same filters, over the whole table.
unfoldable pub total_count : List Row → (Row → Bool) → Bool → ℕ
total_count table filter include_deleted = length (keep (is_served filter include_deleted) table)
