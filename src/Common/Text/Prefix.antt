-- ===== src/Common/Text/Prefix.antt =====
-- `strings.CutPrefix`, `strings.TrimPrefix` and `strings.Contains` for one byte.
use Prim.Native.Nat.{ℕ}
use mathlib.Core.Path.{◌≡◌, refl}
use mathlib.Core.Bool.{Bool}
use mathlib.Core.Option.{Option, none, some}
use mathlib.Core.List.{[], ◌∷◌, ◌++◌}
use native.Mathlib.Omega.{arith}
use vex_pay.Common.Tests.{◌==◌, if◌then◌else◌}
use vex_pay.Common.Text.{Str, cut}

-- what is left behind a prefix
unfoldable pub cut_prefix : Str → Str → Option Str
cut_prefix [] s = some s
cut_prefix (c ∷ p) [] = none
cut_prefix (c ∷ p) (d ∷ s) = let rest = cut_prefix p s in if c == d then rest else none

unfoldable pub trim_prefix : Str → Str → Str
trim_prefix p s = elim (cut_prefix p s) [ none ↦ s | some rest ↦ rest ]

unfoldable pub contains : ℕ → Str → Bool
contains c s = (cut c s).found

pub cut_prefix-append : (p s : Str) → cut_prefix p (p ++ s) ≡ some s
unfolding cut_prefix
cut_prefix-append [] s = refl
cut_prefix-append (c ∷ p) s = ground (arith, cut_prefix-append p s)
