-- ===== src/Money/Parsing.antt =====
-- internal/money/money.go: the texts of `ParseDecimal`, and the arithmetic of amounts.
use native.Mathlib.Nat.{pow-suc, add-zero, add-suc}
use vex_pay.Common.{
  ℕ, zero, suc, ◌+◌, ◌-◌, ◌*◌, ◌^◌, ◌≤◌, ◌<◌, ◌≡◌, ap, ◌∙◌, inl, inr, Bool-cases, ◌↔◌, Bool, true,
  false, some, [], ◌∷◌, ◌++◌, arith, ◌==◌, length, replicate, All, All-append, All-replicate,
  length-append, err, ok, too_precise,
}
use vex_pay.Common.Int.{pos, ◌<ℤ◌, less, same, more, cmp_ℤ-sub, sub-add_ℤ}
use vex_pay.Common.Text.{Str, Lacks, cut-append}
use vex_pay.Common.Text.Space.{IsPlain, trim_space-plain}
use vex_pay.Common.Text.Decimal.{IsDigit, value, value-append, value-add, value-replicate}
use vex_pay.Money.{Asset, Amount, from_units, must_units, cmp, add, sub, parse_decimal, scale}
use vex_pay.Money.Scale.{
  digits-Lacks, digits-IsPlain, is_empty-append, strip_minus-digits, scale-digits,
}

ten_pow-add : (l k : ℕ) → 10 ^ (l + k) ≡ 10 ^ l * 10 ^ k
ten_pow-add l zero = rw add-zero (omega arith)
ten_pow-add l (suc k) = rw (add-suc, pow-suc, pow-suc, ten_pow-add l k) (omega arith)

-- the units that `int.frac` stands for: the two parts by their places
value-scaled :
    (d a b : ℕ) (int frac : Str)
    → length frac ≤ d
    → value 0 int ≡ some a
    → value 0 frac ≡ some b
    → value 0 (int ++ frac ++ replicate (d - length frac) b'0')
      ≡ some (a * 10 ^ d + b * 10 ^ (d - length frac))
value-scaled d a b int frac l ea eb =
    let k : ℕ = d - length frac in
    let places : 10 ^ d ≡ 10 ^ length frac * 10 ^ k =
      ap (λ n. 10 ^ n) (omega arith) ∙ ten_pow-add (length frac) k in
    let joined : value 0 (int ++ frac) ≡ some (a * 10 ^ length frac + b) =
      value-append 0 a int frac ea ∙ (rw add-zero at (value-add a 0 b frac eb)) in
    value-append 0 _ (int ++ frac) (replicate k b'0') joined
    ∙ value-replicate (a * 10 ^ length frac + b) k
    ∙ ap some (rw places (omega arith))

-- A numeral `int.frac` with no more fractional digits than the asset has is read as exactly
-- `int · 10^decimals + frac · 10^(decimals - len frac)` units.
pub parse_decimal-exact :
    (asset : Asset) (int frac : Str) (a b : ℕ)
    → All IsDigit int
    → All IsDigit frac
    → 0 < length int
    → length frac ≤ asset.decimals
    → value 0 int ≡ some a
    → value 0 frac ≡ some b
    → parse_decimal asset (int ++ b'.' ∷ frac)
      ≡ ok (
          from_units asset
            (pos (a * 10 ^ asset.decimals + b * 10 ^ (asset.decimals - length frac))))
unfolding parse_decimal from_units
parse_decimal-exact asset int frac a b hi hf l0 l ea eb =
    rw
      (
        trim_space-plain (int ++ b'.' ∷ frac) (
            All-append IsPlain int _ (digits-IsPlain int hi) (omega arith, digits-IsPlain frac hf)),
        is_empty-append int (b'.' ∷ frac) l0,
        strip_minus-digits int (b'.' ∷ frac) l0 hi,
        cut-append b'.' int frac (digits-Lacks int hi),
      )
      (scale-digits asset false true int frac _ l
        (All-append IsDigit _ _ (All-append IsDigit int frac hi hf)
          (All-replicate IsDigit _ _ (omega arith)))
        (rw (length-append, length-append) (omega arith))
        (value-scaled asset.decimals a b int frac l ea eb))

scale-too_precise :
    (asset : Asset) (minus : Bool) (before after : Str)
    → asset.decimals < length after
    → scale asset minus (record { before = before; after = after; found = true }) ≡ err too_precise
unfolding scale
scale-too_precise asset minus before after l = ground arith

-- More fractional digits than the asset has are an error, never a truncation: with any visible
-- characters in front of the first point and behind it.
pub parse_decimal-too_precise :
    (asset : Asset) (int frac : Str)
    → All IsPlain int
    → All IsPlain frac
    → Lacks b'.' int
    → asset.decimals < length frac
    → parse_decimal asset (int ++ b'.' ∷ frac) ≡ err too_precise
unfolding parse_decimal
parse_decimal-too_precise asset [] frac hi hf h l =
    rw (trim_space-plain (b'.' ∷ frac) (omega arith, hf), cut-append b'.' [] frac tt)
      (scale-too_precise asset false [] frac l)
parse_decimal-too_precise asset (c ∷ int) frac hi hf h l =
    rw
      (trim_space-plain (c ∷ (int ++ b'.' ∷ frac))
        (All-append IsPlain (c ∷ int) _ hi (omega arith, hf)))
      (elim (Bool-cases (c == b'-')) [
        | inl minus ↦
            rw (minus, cut-append b'.' int frac h.1) (scale-too_precise asset true int frac l)
        | inr other ↦
            rw (other, cut-append b'.' (c ∷ int) frac h)
              (scale-too_precise asset false (c ∷ int) frac l)
      ])

-- `Cmp` agrees with the sign of the difference that `Sub` returns.
pub cmp-sub :
    (a b : Amount)
    → ((cmp a b ≡ less) ↔ (must_units (sub a b) <ℤ pos 0))
      × ((cmp a b ≡ same) ↔ (must_units (sub a b) ≡ pos 0))
      × ((cmp a b ≡ more) ↔ (pos 0 <ℤ must_units (sub a b)))
unfolding cmp sub
cmp-sub a b = cmp_ℤ-sub (must_units a) (must_units b)

-- `Sub` undoes `Add`.
pub sub-add : (a b : Amount) → sub (add a b) b ≡ from_units a.asset (must_units a)
unfolding add sub from_units
sub-add a b = rw (sub-add_ℤ (must_units a) (must_units b))
