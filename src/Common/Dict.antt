-- ===== src/Common/Dict.antt =====
-- Go's `map[string]V` as an association list. A range over a map visits the entries in an order
-- that Go leaves open; the list's order is one of them.
use mathlib.Core.Path.{◌≡◌, refl}
use mathlib.Core.Bool.{false}
use mathlib.Core.Option.{Option, none, some}
use mathlib.Core.List.{List, [], ◌∷◌}
use native.Mathlib.Omega.{arith}
use vex_pay.Common.Tests.{if◌then◌else◌}
use vex_pay.Common.Text.{Str, str_eq, str_eq_iff, str_eq_refl}

abbrev pub Dict {ℓ} : Type ℓ → Type ℓ
Dict V = List (Str × V)

module _ {ℓ} {V : Type ℓ} where
  -- `m[k]`, with its second result
  unfoldable pub get : Dict V → Str → Option V
  get [] k = none
  get ((j, v) ∷ m) k = if str_eq j k then some v else get m k

  -- `m[k] = v`
  unfoldable pub put : Dict V → Str → V → Dict V
  put [] k v = (k, v) ∷ []
  put ((j, w) ∷ m) k v = if str_eq j k then (k, v) ∷ m else (j, w) ∷ put m k v

  pub get-put :
      (m : Dict V) (k j : Str) (v : V)
      → get (put m k v) j ≡ (if str_eq k j then some v else get m j)
  unfolding get put
  get-put [] k j v = refl
  get-put ((i, w) ∷ m) k j v =
      ground (arith, str_eq_iff k j, str_eq_iff i k, str_eq_iff i j, get-put m k j v)

  pub get-put_self : (m : Dict V) (k : Str) (v : V) → get (put m k v) k ≡ some v
  get-put_self m k v = ground (arith, get-put m k k v, str_eq_refl k)

  pub get-put_ne :
      (m : Dict V) (k j : Str) (v : V) → str_eq k j ≡ false → get (put m k v) j ≡ get m j
  get-put_ne m k j v h = ground (arith, get-put m k j v)
