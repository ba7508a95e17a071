-- ===== src/Rates/Rational.antt =====
-- What internal/rates/rates.go uses of `big.Rat`, and `ceilRat` and `pow10` of that file. Fractions
-- need not be reduced: every operation here depends on the value only.
use vex_pay.Common.{
  ℕ, zero, suc, ◌+◌, ◌-◌, ◌*◌, ◌/◌, ◌%◌, ◌^◌, ◌≤◌, ◌<◌, ◌≡◌, refl, Bool, ltb, ◌++◌, ◌∷◌, length,
  replicate, if◌then◌else◌, arith, false, true, Bool-cases, inl, inr,
}
use vex_pay.Common.Int.{ℤ, pos, negsuc, neg, abs, is_neg}
use vex_pay.Common.Text.{Str}
use vex_pay.Common.Text.Decimal.{digits}
use native.Mathlib.Nat.{div-add-mod, mod-lt, mul_comm, add-mul, mul-pos}

-- `num / (den_pred + 1)`
pub record Rat : Type 0 where
  pub num : ℤ
  pub den_pred : ℕ

abbrev pub den : Rat → ℕ
den r = suc r.den_pred

-- `r.Sign() > 0`
abbrev pub is_pos : Rat → Bool
is_pos r = elim r.num [ pos n ↦ ltb 0 n | negsuc _ ↦ false ]

-- the numerator of a positive fraction
abbrev pub top : Rat → ℕ
top r = abs r.num

abbrev pub times : ℤ → ℕ → ℤ
times (pos n) k = pos (n * k)
times (negsuc n) k = neg (pos (suc n * k))

-- `x.Quo(a, b)` for a positive `b`
unfoldable pub quo : Rat → Rat → Rat
quo a b = record { num = times a.num (den b); den_pred = den a * abs b.num - 1 }

-- `x.Mul(x, scale)` for a whole `scale`
unfoldable pub scaled : Rat → ℕ → Rat
scaled a k = record a { num = times a.num k }

unfoldable pub pow10 : ℕ → ℕ
pow10 n = 10 ^ n

unfoldable pub ceil_rat : Rat → ℤ
ceil_rat r = elim r.num [
  | pos n ↦ if ltb 0 (n % den r) then pos (n / den r + 1) else pos (n / den r)
  | negsuc n ↦ neg (pos (suc n / den r))
]

-- `x.FloatString(prec)`: halves are rounded away from zero
unfoldable pub float_string : ℕ → Rat → Str
float_string prec r =
    let rounded = (2 * (abs r.num * 10 ^ prec) + den r) / (2 * den r) in
    let frac = digits (rounded % 10 ^ prec) in
    let text = digits (rounded / 10 ^ prec) ++ b'.' ∷ replicate (prec - length frac) b'0' ++ frac in
    if is_neg r.num then b'-' ∷ text else text

-- The least whole number that is not below the fraction.
pub ceil_rat-least :
    (r : Rat) (n : ℕ)
    → r.num ≡ pos n
    → (u : ℕ) × (ceil_rat r ≡ pos u) × (n ≤ u * den r) × (u * den r < n + den r)
unfolding ceil_rat
ceil_rat-least r n e =
    let whole = div-add-mod n (den r) in
    let short = mod-lt n {m = den r} (omega arith) in
    let turned = mul_comm (den r) (n / den r) in
    let next = add-mul (n / den r) 1 (den r) in
    elim (Bool-cases (ltb 0 (n % den r))) [
      | inl more ↦ (n / den r + 1, rw (e, more), ground arith, ground arith)
      | inr none_left ↦ (n / den r, rw (e, none_left), ground arith, ground arith)
    ]

-- a positive fraction by its parts
pub pos_num : (r : Rat) → is_pos r ≡ true → (r.num ≡ pos (top r)) × (0 < top r)
pos_num r h = ground arith

factor_pos : (u d n : ℕ) → 0 < n → n ≤ u * d → 0 < u
factor_pos zero d n h e = absurd (omega arith)
factor_pos (suc u) d n h e = omega arith

-- The least whole number of units whose worth at a price is not below a fiat amount.
pub units-least :
    (fiat price : Rat) (k : ℕ)
    → is_pos fiat ≡ true
    → is_pos price ≡ true
    → 0 < k
    → (u : ℕ) × (ceil_rat (scaled (quo fiat price) k) ≡ pos u)
      × (0 < u)
      × (top fiat * den price * k ≤ u * (den fiat * top price))
      × (u * (den fiat * top price) < top fiat * den price * k + den fiat * top price)
unfolding quo scaled
units-least fiat price k fp pp kp =
    let (fnum, f_pos) = pos_num fiat fp in
    let (pnum, p_pos) = pos_num price pp in
    let below : 0 < den fiat * top price = mul-pos (omega arith) p_pos in
    let denominator : suc (den fiat * top price - 1) ≡ den fiat * top price = omega arith in
    let worth = mul-pos (mul-pos f_pos (omega arith)) kp in
    let whole : times (times fiat.num (den price)) k ≡ pos (top fiat * den price * k) =
      rw fnum refl in
    let (u, e, up, low) =
      ceil_rat-least (scaled (quo fiat price) k) (top fiat * den price * k) whole in
    (u, e, factor_pos u _ _ worth up, rw denominator at up, rw denominator at low)
