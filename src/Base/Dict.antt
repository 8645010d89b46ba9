-- ===== src/Base/Dict.antt =====
-- Python's `dict`, in insertion order. Proofs elsewhere go by the laws in `if` form.
use cbm_mentoring_app.Base.Tests.{if◌then◌else◌, is_some}
use cbm_mentoring_app.Base.Lists.{keep, All, All-map}
use mathlib.Core.Bool.{Bool, ◌&&◌}
use cbm_mentoring_app.Base.Equality.{Eq, ◌==◌, contains}
use mathlib.Core.Path.{◌≡◌, refl}
use mathlib.Core.Option.{Option, none, some}
use mathlib.Core.List.{List, [], ◌∷◌, map}
use native.Mathlib.Omega.{arith}

abbrev pub Dict {ℓ κ} : Type ℓ → Type κ → Type (ℓ ⊔ κ)
Dict K V = List (K × V)

module _ {ℓ κ} {K : Type ℓ} {V : Type κ} ⦃e : Eq K⦄ where
  -- `d.get(k)`
  unfoldable pub get : Dict K V → K → Option V
  get [] k = none
  get ((j, v) ∷ d) k = if k == j then some v else get d k

  -- `d[k] = v`
  unfoldable pub put : Dict K V → K → V → Dict K V
  put [] k v = (k, v) ∷ []
  put ((j, w) ∷ d) k v = if k == j then (j, v) ∷ d else (j, w) ∷ put d k v

  -- `d.pop(k, None)`. Every entry of the key goes; a dict has at most one.
  unfoldable pub remove : Dict K V → K → Dict K V
  remove [] k = []
  remove ((j, w) ∷ d) k = let rest = remove d k in if k == j then rest else (j, w) ∷ rest

  pub get-empty : (k : K) → get [] k ≡ none
  unfolding get
  get-empty k = refl

  pub get-put :
      (d : Dict K V) (k j : K) (v : V) → get (put d k v) j ≡ (if j == k then some v else get d j)
  unfolding get put
  get-put [] k j v = refl
  get-put ((i, w) ∷ d) k j v = ground (arith, get-put d k j v)

  pub get-remove :
      (d : Dict K V) (k j : K) → get (remove d k) j ≡ (if j == k then none else get d j)
  unfolding get remove
  get-remove [] k j = ground arith
  get-remove ((i, w) ∷ d) k j = ground (arith, get-remove d k j)

  abbrev pub keys : Dict K V → List K
  keys = map (λ (k, _). k)

  -- A dict has one entry for a key.
  abbrev pub IsDict : Dict K V → Type (ℓ ⊔ κ)
  IsDict [] = Unit
  IsDict ((k, v) ∷ d) = (get d k ≡ none) × IsDict d

  abbrev pub filtered : (K × V → Bool) → K → Option V → Option V
  filtered p k none = none
  filtered p k (some v) = if p (k, v) then some v else none

  -- `{k: v for k, v in d.items() if p(k, v)}`
  pub get-keep :
      (p : K × V → Bool) (d : Dict K V) (k : K)
      → IsDict d
      → get (keep p d) k ≡ filtered p k (get d k)
  unfolding get
  get-keep p [] k h = refl
  get-keep p ((j, w) ∷ d) k h = ground (arith, get-keep p d k h.1)

  pub keep-IsDict : (p : K × V → Bool) (d : Dict K V) → IsDict d → IsDict (keep p d)
  keep-IsDict p [] h = tt
  keep-IsDict p ((j, w) ∷ d) h = ground (arith, keep-IsDict p d h.1, get-keep p d j h.1)

  -- A dict holds each of its entries.
  pub get-entries : (d : Dict K V) → IsDict d → All (λ (k, v). get d k ≡ some v) d
  unfolding get
  get-entries [] h = tt
  get-entries ((k, v) ∷ d) h =
      (ground arith, All-map (λ (j, w) found. ground (arith, h, found)) d (get-entries d h.1))

  pub put-IsDict : (d : Dict K V) (k : K) (v : V) → IsDict d → IsDict (put d k v)
  unfolding get put
  put-IsDict [] k v h = (refl, tt)
  put-IsDict ((j, w) ∷ d) k v h = ground (arith, put-IsDict d k v h.1, get-put d k j v)

  pub contains-keep-keys :
      (q : K → Bool) (d : Dict K V) (k : K)
      → contains (keep q (keys d)) k ≡ (is_some (get d k) && q k)
  unfolding get
  contains-keep-keys q [] k = refl
  contains-keep-keys q ((j, w) ∷ d) k = ground (arith, contains-keep-keys q d k)

pub ruleset dict_laws = (get-empty, get-put, get-remove)
