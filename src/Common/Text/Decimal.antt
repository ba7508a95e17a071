-- ===== src/Common/Text/Decimal.antt =====
-- Decimal numerals: what `big.Int` prints, and what `SetString(s, 10)` and the digit loops of
-- `strconv` read.
use Prim.Native.Nat.{ℕ, zero, suc, ◌+◌, ◌-◌, ◌*◌, ◌/◌, ◌%◌, ◌^◌, ◌≤◌, ◌<◌}
use mathlib.Core.Path.{◌≡◌, refl}
use mathlib.Core.Bool.{Bool, ◌&&◌}
use mathlib.Core.Logic.{inl, inr}
use mathlib.Core.Option
use mathlib.Core.Option.{Option, none, some}
use mathlib.Core.List.{[], ◌∷◌, ◌++◌}
use native.Mathlib.Omega.{arith}
use native.Mathlib.Nat.{pow-suc}
use vex_pay.Common.Tests.{ltb, leb, ◌==◌, if◌then◌else◌, Bool-cases, ltb→lt}
use vex_pay.Common.Lists.{length, replicate, All, All-append, length-append}
use vex_pay.Common.Int.{ℤ, pos, negsuc, neg, abs, is_neg}
use vex_pay.Common.Text.{Str}

abbrev pub IsDigit : ℕ → Type 0
IsDigit c = (b'0' ≤ c) × (c ≤ b'9')

abbrev pub is_digit : ℕ → Bool
is_digit c = leb b'0' c && leb c b'9'

-- the numeral of `n`, on fuel; `n < fuel` is enough
digits_on : ℕ → ℕ → Str
digits_on zero n = []
digits_on (suc f) n =
    let more = digits_on f (n / 10) ++ (b'0' + n % 10) ∷ [] in
    if ltb n 10 then (b'0' + n) ∷ [] else more

-- `x.String()` for `x ≥ 0`
unfoldable pub digits : ℕ → Str
unfolding digits_on
digits n = digits_on (suc n) n

-- the number that digits spell behind `acc`; `none` at a byte that is no digit
unfoldable pub value : ℕ → Str → Option ℕ
value acc [] = some acc
value acc (c ∷ s) = let rest = value (acc * 10 + (c - b'0')) s in if is_digit c then rest else none

-- digits without a sign: at least one
unfoldable pub unsigned : Str → Option ℕ
unsigned [] = none
unsigned (c ∷ s) = value 0 (c ∷ s)

-- `new(big.Int).SetString(s, 10)`: one sign at most, then digits to the end
unfoldable pub set_string : Str → Option ℤ
unfolding unsigned
set_string [] = none
set_string (c ∷ s) =
    if c == b'-'
    then Option.map (λ n. neg (pos n)) (unsigned s)
    else if c == b'+'
    then Option.map pos (unsigned s)
    else Option.map pos (unsigned (c ∷ s))

-- `x.String()`
unfoldable pub int_string : ℤ → Str
int_string x = if is_neg x then b'-' ∷ digits (abs x) else digits (abs x)

pub value-append : (acc n : ℕ) (s t : Str) → value acc s ≡ some n → value acc (s ++ t) ≡ value n t
unfolding value
value-append acc n [] t h = ground arith
value-append acc n (c ∷ s) t h = ground (arith, value-append (acc * 10 + (c - b'0')) n s t)

-- Digits in front count by their place.
pub value-add :
    (k acc n : ℕ) (s : Str)
    → value acc s ≡ some n
    → value (k + acc) s ≡ some (k * 10 ^ length s + n)
unfolding value
value-add k acc n [] h = ground arith
value-add k acc n (c ∷ s) h =
    let shift : (k + acc) * 10 + (c - b'0') ≡ k * 10 + (acc * 10 + (c - b'0')) = omega arith in
    rw (shift, pow-suc) (ground (arith, value-add (k * 10) (acc * 10 + (c - b'0')) n s))

pub value-replicate : (acc k : ℕ) → value acc (replicate k b'0') ≡ some (acc * 10 ^ k)
unfolding value
value-replicate acc zero = ground arith
value-replicate acc (suc k) = rw (value-replicate (acc * 10 + 0) k, pow-suc) (ground arith)

pub value-zeros : (k : ℕ) (s : Str) → value 0 (replicate k b'0' ++ s) ≡ value 0 s
unfolding value
value-zeros zero s = refl
value-zeros (suc k) s = value-zeros k s

add-IsDigit : (d : ℕ) → d < 10 → IsDigit (b'0' + d)
add-IsDigit d h = omega arith

digits_on-IsDigit : (f n : ℕ) → All IsDigit (digits_on f n)
unfolding digits_on
digits_on-IsDigit zero n = tt
digits_on-IsDigit (suc f) n = elim (Bool-cases (ltb n 10)) [
  | inl small ↦ rw small (add-IsDigit n (ltb→lt n 10 small), tt)
  | inr big ↦ rw big (
      All-append IsDigit _ _ (digits_on-IsDigit f (n / 10))
        (add-IsDigit (n % 10) (omega arith), tt))
]

pub digits-IsDigit : (n : ℕ) → All IsDigit (digits n)
unfolding digits
digits-IsDigit n = digits_on-IsDigit (suc n) n

value-digits_on : (f n : ℕ) → n < f → value 0 (digits_on f n) ≡ some n
unfolding digits_on value
value-digits_on zero n h = absurd (omega arith)
value-digits_on (suc f) n h = elim (Bool-cases (ltb n 10)) [
  | inl small ↦ ground arith
  | inr big ↦
      rw
        (
          big,
          value-append 0 (n / 10) (digits_on f (n / 10)) _
              (value-digits_on f (n / 10) (ground arith)),
        )
        (ground arith)
]

pub value-digits : (n : ℕ) → value 0 (digits n) ≡ some n
unfolding digits
value-digits n = value-digits_on (suc n) n (omega arith)

pub length-digits_pos : (n : ℕ) → 0 < length (digits n)
unfolding digits digits_on
length-digits_pos n = elim (Bool-cases (ltb n 10)) [
  | inl small ↦ rw small (omega arith)
  | inr big ↦ rw (big, length-append) (omega arith)
]

-- Digits are read as the number that they spell, whatever stands in front of them.
pub set_string-digits :
    (s : Str) (n : ℕ)
    → All IsDigit s
    → 0 < length s
    → value 0 s ≡ some n
    → set_string s ≡ some (pos n)
unfolding set_string
set_string-digits [] n h l e = elim l [ ]
set_string-digits (c ∷ s) n (hc, h) l e = ground arith

unsigned-digits : (s : Str) (n : ℕ) → 0 < length s → value 0 s ≡ some n → unsigned s ≡ some n
unfolding unsigned
unsigned-digits [] n l e = elim l [ ]
unsigned-digits (c ∷ s) n l e = e

set_string-minus :
    (s : Str) (n : ℕ) → unsigned s ≡ some n → set_string (b'-' ∷ s) ≡ some (neg (pos n))
unfolding set_string
set_string-minus s n e = rw e

pub set_string-minus_digits :
    (s : Str) (n : ℕ)
    → 0 < length s
    → value 0 s ≡ some n
    → set_string (b'-' ∷ s) ≡ some (neg (pos n))
set_string-minus_digits s n l e = set_string-minus s n (unsigned-digits s n l e)

-- What an integer prints as is read back as that integer.
pub set_string-int_string : (x : ℤ) → set_string (int_string x) ≡ some x
unfolding int_string
set_string-int_string (pos n) =
    set_string-digits (digits n) n (digits-IsDigit n) (length-digits_pos n) (value-digits n)
set_string-int_string (negsuc n) =
    set_string-minus_digits (digits (suc n)) (suc n) (length-digits_pos (suc n))
      (value-digits (suc n))
