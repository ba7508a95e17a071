-- ===== src/Common/Text/Space.antt =====
-- `strings.TrimSpace`: the runes of `unicode.IsSpace`, in UTF-8, at both ends.
use Prim.Native.Nat.{ℕ, zero, suc, ◌≤◌}
use mathlib.Core.Path.{◌≡◌, refl}
use mathlib.Core.Bool.{Bool, ◌&&◌, ◌||◌}
use mathlib.Core.List.{[], ◌∷◌, reverse, reverse-reverse, reverse-cons}
use native.Mathlib.Omega.{arith}
use vex_pay.Common.Tests.{leb, ◌==◌, if◌then◌else◌}
use vex_pay.Common.Lists.{All, All-append}
use vex_pay.Common.Text.{Str, codes}

one_byte : ℕ → Bool
one_byte a = (leb 9 a && leb a 13) || a == 32

-- U+0085 and U+00A0
two_bytes : ℕ → ℕ → Bool
two_bytes a b = a == 0xc2 && (b == 0x85 || b == 0xa0)

-- U+1680, U+2000 to U+200A, U+2028, U+2029, U+202F, U+205F, U+3000
three_bytes : ℕ → ℕ → ℕ → Bool
three_bytes a b c =
    (a == 0xe1 && b == 0x9a && c == 0x80)
    || (a == 0xe2 && b == 0x80 && (leb 0x80 c && leb c 0x8a || c == 0xa8 || c == 0xa9 || c == 0xaf))
    || (a == 0xe2 && b == 0x81 && c == 0x9f)
    || (a == 0xe3 && b == 0x80 && c == 0x80)

-- the bytes of the space that the text begins with, 0 if it begins with none
front_width : Str → ℕ
front_width [] = 0
front_width (a ∷ []) = if one_byte a then 1 else 0
front_width (a ∷ b ∷ []) = if one_byte a then 1 else if two_bytes a b then 2 else 0
front_width (a ∷ b ∷ c ∷ s) =
    if one_byte a then 1 else if two_bytes a b then 2 else if three_bytes a b c then 3 else 0

-- the same for the space that a reversed text ends with
back_width : Str → ℕ
back_width [] = 0
back_width (c ∷ []) = if one_byte c then 1 else 0
back_width (c ∷ b ∷ []) = if one_byte c then 1 else if two_bytes b c then 2 else 0
back_width (c ∷ b ∷ a ∷ s) =
    if one_byte c then 1 else if two_bytes b c then 2 else if three_bytes a b c then 3 else 0

-- drop `n` bytes, and then spaces as long as there are any
skip : (Str → ℕ) → ℕ → Str → Str
skip width n [] = []
skip width (suc n) (c ∷ s) = skip width n s
skip width zero (c ∷ s) = elim (width (c ∷ s)) [ zero ↦ c ∷ s | suc w ↦ skip width w s ]

unfoldable pub trim_space : Str → Str
unfolding one_byte two_bytes three_bytes front_width back_width skip
trim_space s = reverse (skip back_width zero (reverse (skip front_width zero s)))

-- a visible ASCII character
abbrev pub IsPlain : ℕ → Type 0
IsPlain c = (33 ≤ c) × (c ≤ 126)

front_width-plain : (c : ℕ) (s : Str) → IsPlain c → front_width (c ∷ s) ≡ 0
unfolding front_width one_byte two_bytes three_bytes
front_width-plain c [] h = ground arith
front_width-plain c (d ∷ []) h = ground arith
front_width-plain c (d ∷ e ∷ s) h = ground arith

back_width-plain : (c : ℕ) (s : Str) → IsPlain c → back_width (c ∷ s) ≡ 0
unfolding back_width one_byte two_bytes three_bytes
back_width-plain c [] h = ground arith
back_width-plain c (d ∷ []) h = ground arith
back_width-plain c (d ∷ e ∷ s) h = ground arith

skip_none :
    (width : Str → ℕ) (s : Str)
    → ((c : ℕ) (t : Str) → IsPlain c → width (c ∷ t) ≡ 0)
    → All IsPlain s
    → skip width zero s ≡ s
unfolding skip
skip_none width [] w h = refl
skip_none width (c ∷ s) w (hc, h) = rw (w c s hc, skip)

All-reverse : (s : Str) → All IsPlain s → All IsPlain (reverse s)
All-reverse [] h = tt
All-reverse (c ∷ s) (hc, h) = rw reverse-cons (All-append IsPlain _ _ (All-reverse s h) (hc, tt))

pub trim_space-plain : (s : Str) → All IsPlain s → trim_space s ≡ s
unfolding trim_space
trim_space-plain s h =
    rw
      (
        skip_none front_width s front_width-plain h,
        skip_none back_width (reverse s) back_width-plain (All-reverse s h),
      )
      (reverse-reverse s)

trim_space_test : trim_space (codes " \t1.5 \n") ≡ codes "1.5"
unfolding trim_space
trim_space_test = refl

trim_space_wide : trim_space (0xc2 ∷ 0xa0 ∷ b'7' ∷ 0xe2 ∷ 0x80 ∷ 0xa8 ∷ []) ≡ codes "7"
unfolding trim_space
trim_space_wide = refl
