-- ===== src/Api/Lists/Examples.antt =====
-- src/mentorapp/api/list_engine.py: a table of three rows, and a codec that writes in unary.
use Prim.Native.Char.{char, code}
use Prim.Native.String
use cbm_mentoring_app.Api.Lists.Cursors.{CursorText, IsCursorText, cursor_codec, document}
use cbm_mentoring_app.Base.Json.{Json, null, text, number, object, no_members, member}
use cbm_mentoring_app.Base.{
  is_some, ℕ, zero, suc, ◌≤◌, String, ◌≡◌, refl, ap, true, false, Option, none, some, List, [], ◌∷◌,
  nat_eq, string_eq, if◌then◌else◌, ◌==◌, length, keep, arith,
}
use cbm_mentoring_app.Base.Dict
use cbm_mentoring_app.Api.Lists.{
  Row, Position, Codec, keyset_page, page_bound, is_served, total_count,
}
use cbm_mentoring_app.Api.Lists.Walks.{HasValue}
use cbm_mentoring_app.Api.Lists.Pages.{IsBounded, keyset_page-IsBounded, AllOfPage, read_pages}
use cbm_mentoring_app.Api.Lists.Reading.{read_pages-total_count}

abbrev marks : ℕ → ℕ → String
marks zero zero = Prim.Native.String.[]
marks zero (suc b) = Prim.Native.String.◌∷◌ (char 98 tt) (marks zero b)
marks (suc a) b = Prim.Native.String.◌∷◌ (char 97 tt) (marks a b)

abbrev count_mark : ℕ → String → ℕ
count_mark c Prim.Native.String.[] = 0
count_mark c (Prim.Native.String.◌∷◌ d s) =
    let rest = count_mark c s in if code d == c then suc rest else rest

abbrev shifted : Option ℕ → ℕ
shifted none = 0
shifted (some v) = suc v

abbrev unshifted : ℕ → Option ℕ
unshifted zero = none
unshifted (suc v) = some v

abbrev unary : Codec
unary = record {
  encode = λ (v, id). marks (shifted v) id;
  decode = λ s. some (unshifted (count_mark 97 s), count_mark 98 s);
}

count_mark-a : (a b : ℕ) → count_mark 97 (marks a b) ≡ a
count_mark-a zero zero = refl
count_mark-a zero (suc b) = ground (arith, count_mark-a zero b)
count_mark-a (suc a) b = ground (arith, count_mark-a a b)

count_mark-b : (a b : ℕ) → count_mark 98 (marks a b) ≡ b
count_mark-b zero zero = refl
count_mark-b zero (suc b) = ground (arith, count_mark-b zero b)
count_mark-b (suc a) b = ground (arith, count_mark-b a b)

unshifted-shifted : (v : Option ℕ) → unshifted (shifted v) ≡ v
unshifted-shifted none = refl
unshifted-shifted (some v) = refl

-- The cursor's document, by its value and the text of its id.
abbrev plain : Option ℕ → String → Json
plain none id =
    object (member "t" (text "plain") (member "v" null (member "id" (text id) no_members)))
plain (some v) id =
    object (member "t" (text "plain") (member "v" (number v) (member "id" (text id) no_members)))

abbrev written : Json → String
written (object (member _ _ (member _ null (member _ (text id) _)))) = marks 0 (count_mark 98 id)
written (object (member _ _ (member _ (number v) (member _ (text id) _)))) =
    marks (suc v) (count_mark 98 id)
written _ = ""

abbrev marked : CursorText
marked = record {
  to_base64 = written;
  from_base64 = λ s. some (plain (unshifted (count_mark 97 s)) (marks 0 (count_mark 98 s)));
  isoformat = λ moment. marks moment 0;
  fromisoformat = λ s. some (count_mark 97 s);
  uuid_text = λ id. marks 0 id;
  parse_uuid = λ s. some (count_mark 98 s);
}

marked_reads :
    (at : Position)
    → marked.from_base64 (marked.to_base64 (document marked false at))
      ≡ some (document marked false at)
marked_reads (none, id) = rw (count_mark-b 0 id, count_mark-a 0 id, count_mark-b 0 id) refl
marked_reads (some v, id) =
    rw (count_mark-b 0 id, count_mark-a (suc v) id, count_mark-b (suc v) id) refl

marked-IsCursorText : IsCursorText marked false
marked-IsCursorText = record {
  from-to = marked_reads;
  from-iso = λ moment. ap some (count_mark-a moment 0);
  parse-uuid_text = λ id. ap some (count_mark-b 0 id);
}

abbrev row : ℕ → ℕ → Option ℕ → Row
row id age deleted = record {
  record_id = id;
  deleted_at = deleted;
  columns = ("age", some age) ∷ [];
}

abbrev table : List Row
table = row 4 30 none ∷ row 2 41 (some 9) ∷ row 7 41 none ∷ row 1 52 none ∷ []

read_pages-total_count_example :
    (rows : List Row) × (read_pages
        (cursor_codec marked false)
        "age"
        5
        ("age" ∷ [])
        table
        1
        (λ _. true)
        false
        none
      ≡ some rows)
    × (rows ≡ keep (is_served (λ _. true) false) table)
    × (total_count table (λ _. true) false ≡ length rows)
unfolding Dict.get string_eq nat_eq
read_pages-total_count_example =
    read_pages-total_count marked false marked-IsCursorText "age" ("age" ∷ []) refl table 1
      (λ _. true) false ((refl, (refl, (refl, tt))), ((refl, (refl, tt)), ((refl, tt), (tt, tt))))
      (refl, (refl, (refl, (refl, tt))))

keyset_page-IsBounded_example :
    let page = keyset_page unary "age" ("age" ∷ []) table 2 (some "aab") (λ _. true) false in
    (page_bound 2 ≤ 200)
    × (1 ≤ page_bound 2)
    × IsBounded unary "age" 2 page
    × (is_some {A = String} (some "aab") ≡ true → AllOfPage unary "age" (HasValue "age") page)
keyset_page-IsBounded_example =
    keyset_page-IsBounded unary "age" ("age" ∷ []) table 2 (some "aab") (λ _. true) false
