-- ===== src/Common/Text.antt =====
-- A Go `string` is a list of bytes.
pub mod Space
pub mod Decimal
pub mod Split
pub mod Prefix
pub mod Hex
use Prim.Native.Char.{code}
use Prim.Native.String.{String}
use Prim.Native.Nat.{ℕ, zero, suc, ◌+◌, ◌-◌, ◌*◌, ◌≤◌}
use mathlib.Core.Path.{◌≡◌, refl}
use mathlib.Core.Logic.{◌↔◌, ◌≢◌}
use mathlib.Core.Bool.{Bool, true, false, ◌&&◌}
use mathlib.Core.Option.{Option, none, some}
use mathlib.Core.List.{List, [], ◌∷◌, ◌++◌}
use native.Mathlib.Omega.{arith}
use vex_pay.Common.Tests.{◌==◌, if◌then◌else◌}
use vex_pay.Common.Lists.{All}

abbrev pub Str : Type 0
Str = List ℕ

-- a literal of the source; its code points are its bytes, as all of them are ASCII
abbrev pub codes : String → Str
codes String.[] = []
codes (String.◌∷◌ c s) = code c ∷ codes s

-- `s == t`
unfoldable pub str_eq : Str → Str → Bool
str_eq [] [] = true
str_eq [] (c ∷ t) = false
str_eq (c ∷ s) [] = false
str_eq (c ∷ s) (d ∷ t) = c == d && str_eq s t

pub str_eq_iff : (s t : Str) → (str_eq s t ≡ true) ↔ (s ≡ t)
unfolding str_eq
str_eq_iff [] [] = ground arith
str_eq_iff [] (c ∷ t) = ground arith
str_eq_iff (c ∷ s) [] = ground arith
str_eq_iff (c ∷ s) (d ∷ t) = ground (arith, str_eq_iff s t)

pub str_eq_refl : (s : Str) → str_eq s s ≡ true
str_eq_refl s = (str_eq_iff s s).1 refl

pub str_eq_comm : (s t : Str) → str_eq s t ≡ str_eq t s
str_eq_comm s t = ground (arith, str_eq_iff s t, str_eq_iff t s)

abbrev pub is_empty : Str → Bool
is_empty [] = true
is_empty (_ ∷ _) = false

-- `strings.Cut(s, sep)` at a separator of one byte
pub record Cut : Type 0 where
  pub before : Str
  pub after : Str
  pub found : Bool

unfoldable pub cut : ℕ → Str → Cut
cut sep [] = record { before = []; after = []; found = false }
cut sep (c ∷ s) =
    let rest = cut sep s in
    if c == sep
    then record { before = []; after = s; found = true }
    else record rest { before = c ∷ rest.before }

abbrev pub Lacks : ℕ → Str → Type 0
Lacks b = All (λ c. c ≢ b)

pub cut-append :
    (sep : ℕ) (s t : Str)
    → Lacks sep s
    → cut sep (s ++ sep ∷ t) ≡ record { before = s; after = t; found = true }
unfolding cut
cut-append sep [] t h = ground arith
cut-append sep (c ∷ s) t (hc, h) = ground (arith, cut-append sep s t h)

pub cut-Lacks :
    (sep : ℕ) (s : Str) → Lacks sep s → cut sep s ≡ record { before = s; after = []; found = false }
unfolding cut
cut-Lacks sep [] h = refl
cut-Lacks sep (c ∷ s) (hc, h) = ground (arith, cut-Lacks sep s h)
