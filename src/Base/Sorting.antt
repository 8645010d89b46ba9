-- ===== src/Base/Sorting.antt =====
-- `sorted` on names: by code points, as Python compares strings.
use Prim.Native.Nat.{Ordering}
use Prim.Native.String.{String, compare}
use mathlib.Core.Path.{◌≡◌, refl}
use mathlib.Core.Bool.{Bool, true, false, ◌||◌}
use mathlib.Core.List.{List, [], ◌∷◌}
use native.Mathlib.Omega.{arith}
use cbm_mentoring_app.Base.Tests.{if◌then◌else◌}
use cbm_mentoring_app.Base.Equality.{◌==◌, string_eq, contains}

abbrev pub not_after : String → String → Bool
not_after a b = elim (compare a b) [ Ordering.gt ↦ false | _ ↦ true ]

unfoldable pub insert_name : String → List String → List String
insert_name a [] = a ∷ []
insert_name a (x ∷ xs) =
    let rest = insert_name a xs in if not_after a x then a ∷ x ∷ xs else x ∷ rest

unfoldable pub sorted_names : List String → List String
sorted_names [] = []
sorted_names (a ∷ xs) = insert_name a (sorted_names xs)

contains-insert_name :
    (a : String) (xs : List String) (b : String)
    → contains (insert_name a xs) b ≡ (b == a || contains xs b)
unfolding insert_name
contains-insert_name a [] b = refl
contains-insert_name a (x ∷ xs) b = ground (arith, contains-insert_name a xs b)

pub contains-sorted_names :
    (xs : List String) (b : String) → contains (sorted_names xs) b ≡ contains xs b
unfolding sorted_names
contains-sorted_names [] b = refl
contains-sorted_names (a ∷ xs) b =
    ground (arith, contains-sorted_names xs b, contains-insert_name a (sorted_names xs) b)
