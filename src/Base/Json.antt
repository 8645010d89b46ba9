-- ===== src/Base/Json.antt =====
-- The values of a JSON document, as Python holds them.
use Prim.Native.Nat.{ℕ}
use Prim.Native.String.{String}
use mathlib.Core.Bool.{Bool, true, false}
use mathlib.Core.Option.{Option, none, some}
use mathlib.Core.List.{List, [], ◌∷◌}
use cbm_mentoring_app.Base.Tests.{if◌then◌else◌}
use cbm_mentoring_app.Base.Equality.{◌==◌, string_eq}

mutual
  pub data Json : Type 0 where
    null : Json
    truth : Bool → Json
    number : ℕ → Json
    text : String → Json
    array : Items → Json
    object : Members → Json

  pub data Items : Type 0 where
    no_items : Items
    item : Json → Items → Items

  pub data Members : Type 0 where
    no_members : Members
    member : String → Json → Members → Members

abbrev pub items : Items → List Json
items no_items = []
items (item x xs) = x ∷ items xs

-- `d.get(name, default)`
abbrev pub member_or : Json → Members → String → Json
member_or default no_members name = default
member_or default (member key value rest) name =
    let found = member_or default rest name in if name == key then value else found

-- `d.get(name)`, with `None` for a missing key
abbrev pub member_of : Members → String → Json
member_of = member_or null

-- `value is None`
abbrev pub is_null : Json → Bool
is_null null = true
is_null _ = false

-- The value as a text, where it is one.
abbrev pub as_text : Json → Option String
as_text (text s) = some s
as_text _ = none
