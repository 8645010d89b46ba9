-- ===== src/Base/Text.antt =====
-- Text as a list of code points, `str.partition` and `str.isspace`.
use Prim.Native.Nat.{ℕ}
use mathlib.Core.Path.{◌≡◌}
use mathlib.Core.Bool.{not, Bool, true, false, ◌&&◌, ◌||◌}
use mathlib.Core.List.{List, [], ◌∷◌, ◌++◌}
use native.Mathlib.Omega.{arith}
use cbm_mentoring_app.Base.Tests.{if◌then◌else◌, leb}
use native.Mathlib.Decide.{ℕ_discrete}
use cbm_mentoring_app.Base.Equality.{Eq, ◌==◌, contains, nat_eq}

abbrev pub Text : Type 0
Text = List ℕ

Text-discrete : Discrete Text
Text-discrete = hlevel ℕ_discrete

instance unfoldable pub text_eq : Eq Text
unfolding Text-discrete
text_eq = record { dec = Text-discrete }

abbrev pub dot : ℕ
dot = b'.'

pub record Parts : Type 0 where
  pub head : Text
  pub found : Bool
  pub tail : Text

abbrev push_head : ℕ → Parts → Parts
push_head c p = record p { head = c ∷ p.head }

-- `text.partition(sep)` for one separator: what stands before it, whether it was there, the rest.
unfoldable pub partition : ℕ → Text → Parts
partition sep [] = record { head = []; found = false; tail = [] }
partition sep (c ∷ cs) =
    let rest = push_head c (partition sep cs) in
    if c == sep then record { head = []; found = true; tail = cs } else rest

-- The first separator splits: what stands before it holds none.
pub partition-append :
    (sep : ℕ) (a b : Text)
    → contains a sep ≡ false
    → partition sep (a ++ sep ∷ b) ≡ record { head = a; found = true; tail = b }
unfolding partition
partition-append sep [] b h = ground arith
partition-append sep (c ∷ a) b h = ground (arith, partition-append sep a b)

-- `str.isascii`
abbrev pub is_ascii : Text → Bool
is_ascii [] = true
is_ascii (c ∷ cs) = not (leb 128 c) && is_ascii cs

-- `str.isspace` of one character.
abbrev pub is_space : ℕ → Bool
is_space c =
    (leb 9 c && leb c 13)
    || (leb 28 c && leb c 32)
    || contains (133 ∷ 160 ∷ 5760 ∷ 8232 ∷ 8233 ∷ 8239 ∷ 8287 ∷ 12288 ∷ []) c
    || (leb 8192 c && leb c 8202)
