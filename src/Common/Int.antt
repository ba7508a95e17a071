-- ===== src/Common/Int.antt =====
-- Go's `big.Int`, and `int`, `int64` where no operation of the program can leave their range:
-- integers over the native numbers. `negsuc n` is -(n + 1).
pub mod Machine
use Prim.Native.Nat.{ℕ, zero, suc, ◌+◌, ◌-◌, ◌≤◌}
use mathlib.Core.Path.{◌≡◌, refl}
use mathlib.Core.Logic.{◌↔◌}
use mathlib.Core.Bool.{Bool, true, false}
use native.Mathlib.Omega.{arith}
use vex_pay.Common.Tests.{ltb, leb, ◌==◌, if◌then◌else◌}

pub data ℤ : Type 0 where
  pos : ℕ → ℤ
  negsuc : ℕ → ℤ

abbrev pub pos_part : ℤ → ℕ
pos_part (pos n) = n
pos_part (negsuc _) = 0

abbrev pub neg_part : ℤ → ℕ
neg_part (pos _) = 0
neg_part (negsuc n) = suc n

abbrev pub sub_ℕ : ℕ → ℕ → ℤ
sub_ℕ a b = if leb b a then pos (a - b) else negsuc (b - a - 1)

infixl 65 ◌+ℤ◌ ◌-ℤ◌
infix 50 ◌≤ℤ◌ ◌<ℤ◌
unfoldable pub ◌+ℤ◌ : ℤ → ℤ → ℤ
a +ℤ b = sub_ℕ (pos_part a + pos_part b) (neg_part a + neg_part b)

unfoldable pub ◌-ℤ◌ : ℤ → ℤ → ℤ
a -ℤ b = sub_ℕ (pos_part a + neg_part b) (neg_part a + pos_part b)

abbrev pub neg : ℤ → ℤ
neg (pos zero) = pos 0
neg (pos (suc n)) = negsuc n
neg (negsuc n) = pos (suc n)

abbrev pub abs : ℤ → ℕ
abs (pos n) = n
abs (negsuc n) = suc n

abbrev pub ◌≤ℤ◌ : ℤ → ℤ → Type 0
a ≤ℤ b = pos_part a + neg_part b ≤ pos_part b + neg_part a

abbrev pub ◌<ℤ◌ : ℤ → ℤ → Type 0
a <ℤ b = suc (pos_part a + neg_part b) ≤ pos_part b + neg_part a

abbrev pub ltb_ℤ : ℤ → ℤ → Bool
ltb_ℤ a b = ltb (pos_part a + neg_part b) (pos_part b + neg_part a)

abbrev pub leb_ℤ : ℤ → ℤ → Bool
leb_ℤ a b = leb (pos_part a + neg_part b) (pos_part b + neg_part a)

-- `x.Sign() == 0`
abbrev pub is_zero : ℤ → Bool
is_zero (pos n) = n == 0
is_zero (negsuc _) = false

abbrev pub is_neg : ℤ → Bool
is_neg (pos _) = false
is_neg (negsuc _) = true

-- `x.Cmp(y)`: -1, 0 or +1
pub data Sign : Type 0 where
  less same more : Sign

abbrev pub cmp_ℤ : ℤ → ℤ → Sign
cmp_ℤ a b = if ltb_ℤ a b then less else if ltb_ℤ b a then more else same

pub +ℤ_parts :
    (a b : ℤ)
    → pos_part (a +ℤ b) + neg_part a + neg_part b ≡ neg_part (a +ℤ b) + pos_part a + pos_part b
unfolding ◌+ℤ◌
+ℤ_parts a b = ground arith

pub -ℤ_parts :
    (a b : ℤ)
    → pos_part (a -ℤ b) + neg_part a + pos_part b ≡ neg_part (a -ℤ b) + pos_part a + neg_part b
unfolding ◌-ℤ◌
-ℤ_parts a b = ground arith

pub eq_of_parts : (a b : ℤ) → pos_part a + neg_part b ≡ pos_part b + neg_part a → a ≡ b
eq_of_parts a b h = ground arith

pub ruleset int_laws = (arith, +ℤ_parts, -ℤ_parts, eq_of_parts)

-- The sign of a difference is the comparison of its two sides.
pub cmp_ℤ-sub :
    (a b : ℤ)
    → ((cmp_ℤ a b ≡ less) ↔ (a -ℤ b <ℤ pos 0))
      × ((cmp_ℤ a b ≡ same) ↔ (a -ℤ b ≡ pos 0))
      × ((cmp_ℤ a b ≡ more) ↔ (pos 0 <ℤ a -ℤ b))
unfolding ◌-ℤ◌
cmp_ℤ-sub (pos x) (pos y) = ground arith
cmp_ℤ-sub (pos x) (negsuc y) = ground arith
cmp_ℤ-sub (negsuc x) (pos y) = ground arith
cmp_ℤ-sub (negsuc x) (negsuc y) = ground arith

pub sub-add_ℤ : (a b : ℤ) → a +ℤ b -ℤ b ≡ a
sub-add_ℤ a b = omega int_laws

pub neg-neg : (n : ℕ) → neg (neg (pos n)) ≡ pos n
neg-neg zero = refl
neg-neg (suc n) = refl
