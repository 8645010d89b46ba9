-- ===== src/Api/Lists/Cursors.antt =====
-- src/mentorapp/api/list_engine.py: `encode_cursor` and `decode_cursor`, for a sort column of datetimes
-- or of values that JSON holds. JSON with base64, ISO 8601 and the text of a UUID are parameters.
use cbm_mentoring_app.Base.Options.{◌>>=◌}
use cbm_mentoring_app.Base.{
  ℕ, String, ◌≡◌, refl, Bool, true, false, Option, none, some, string_eq, ◌==◌, if◌then◌else◌,
}
use cbm_mentoring_app.Base.Json.{Json, null, text, number, object, Members, no_members, member}
use cbm_mentoring_app.Api.CrmWrites.{key_of}
use cbm_mentoring_app.Api.Lists.{Position, Codec}

-- What a cursor's text is made with.
pub record CursorText : Type 0 where
  pub to_base64 : Json → String
  pub from_base64 : String → Option Json
  pub isoformat : ℕ → String
  pub fromisoformat : String → Option ℕ
  pub uuid_text : ℕ → String
  pub parse_uuid : String → Option ℕ

module _ (t : CursorText) (is_datetime : Bool) where
  -- The members `t` and `v`; a null is no datetime.
  abbrev tagged : Option ℕ → Members → Members
  tagged none rest = member "t" (text "plain") (member "v" null rest)
  tagged (some value) rest =
      if is_datetime
      then member "t" (text "datetime") (member "v" (text (t.isoformat value)) rest)
      else member "t" (text "plain") (member "v" (number value) rest)

  abbrev pub document : Position → Json
  document (value, id) = object (tagged value (member "id" (text (t.uuid_text id)) no_members))

  unfoldable pub encode_cursor : Position → String
  encode_cursor at = t.to_base64 (document at)

  abbrev fields_of : Json → Option Members
  fields_of (object fields) = some fields
  fields_of _ = none

  abbrev id_of : Json → Option ℕ
  id_of (text s) = t.parse_uuid s
  id_of _ = none

  -- A value in place of the column's own is left out: it is refused here.
  abbrev plain_of : Json → Option (Option ℕ)
  plain_of null = some none
  plain_of (number n) = some (some n)
  plain_of _ = none

  abbrev moment_of : Json → Option (Option ℕ)
  moment_of (text s) = do moment ← t.fromisoformat s; some (some moment)
  moment_of _ = none

  abbrev is_tag : String → Json → Bool
  is_tag tag (text s) = s == tag
  is_tag tag _ = false

  unfoldable pub decode_cursor : String → Option Position
  decode_cursor cursor = do
    document ← t.from_base64 cursor
    fields ← fields_of document
    value ← key_of fields "v"
    tag ← key_of fields "t"
    at ← (if is_tag "datetime" tag then moment_of value else plain_of value)
    id ← key_of fields "id"
    record_id ← id_of id
    some (at, record_id)

  abbrev pub cursor_codec : Codec
  cursor_codec = record { encode = encode_cursor; decode = decode_cursor }

-- What is relied on: JSON with base64 reads back the documents of cursors, and the texts of a datetime
-- and of a UUID read back.
pub record IsCursorText (t : CursorText) (is_datetime : Bool) : Type 0 where
  pub from-to :
      (at : Position)
      → t.from_base64 (t.to_base64 (document t is_datetime at)) ≡ some (document t is_datetime at)
  pub from-iso : (moment : ℕ) → t.fromisoformat (t.isoformat moment) ≡ some moment
  pub parse-uuid_text : (id : ℕ) → t.parse_uuid (t.uuid_text id) ≡ some id

pub decode_cursor-encode_cursor :
    (t : CursorText) (is_datetime : Bool) (law : IsCursorText t is_datetime) (at : Position)
    → decode_cursor t is_datetime (encode_cursor t is_datetime at) ≡ some at
unfolding encode_cursor decode_cursor key_of string_eq
decode_cursor-encode_cursor t is_datetime law (none, id) =
    rw (law.from-to (none, id), law.parse-uuid_text id) refl
decode_cursor-encode_cursor t true law (some value, id) =
    rw (law.from-to (some value, id), law.from-iso value, law.parse-uuid_text id) refl
decode_cursor-encode_cursor t false law (some value, id) =
    rw (law.from-to (some value, id), law.parse-uuid_text id) refl
