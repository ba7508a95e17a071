-- ===== src/Common/Text/Split.antt =====
-- `strings.Split` at one byte, and texts without a byte.
use Prim.Native.Nat.{ℕ}
use mathlib.Core.Path.{◌≡◌, refl}
use mathlib.Core.List.{List, [], ◌∷◌, ◌++◌}
use native.Mathlib.Omega.{arith}
use vex_pay.Common.Tests.{◌==◌, if◌then◌else◌}
use vex_pay.Common.Text.{Str, Lacks}

-- the pieces with `c` put in front of the first
abbrev pub onto_first : ℕ → List Str → List Str
onto_first c [] = (c ∷ []) ∷ []
onto_first c (s ∷ ss) = (c ∷ s) ∷ ss

-- never empty: a text without `sep` is its own only piece
unfoldable pub split : ℕ → Str → List Str
split sep [] = [] ∷ []
split sep (c ∷ s) = let rest = split sep s in if c == sep then [] ∷ rest else onto_first c rest

pub split-Lacks : (sep : ℕ) (s : Str) → Lacks sep s → split sep s ≡ s ∷ []
unfolding split
split-Lacks sep [] h = refl
split-Lacks sep (c ∷ s) (hc, h) = ground (arith, split-Lacks sep s h)

pub split-append : (sep : ℕ) (s t : Str) → Lacks sep s → split sep (s ++ sep ∷ t) ≡ s ∷ split sep t
unfolding split
split-append sep [] t h = ground arith
split-append sep (c ∷ s) t (hc, h) = ground (arith, split-append sep s t h)
