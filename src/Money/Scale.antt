-- ===== src/Money/Scale.antt =====
-- What the steps of `ParseDecimal` make of digits.
use vex_pay.Common.{
  ℕ, ◌-◌, ◌≤◌, ◌<◌, ◌≡◌, refl, Bool, false, ◌&&◌, some, [], ◌∷◌, ◌++◌, arith, ltb, if◌then◌else◌,
  length, replicate, All, ok,
}
use vex_pay.Common.Int.{pos, neg}
use vex_pay.Common.Text.{Str, is_empty, Lacks}
use vex_pay.Common.Text.Space.{IsPlain}
use vex_pay.Common.Text.Decimal.{IsDigit, value, set_string-digits}
use vex_pay.Money.{Asset, strip_minus, scale}

pub digits-Lacks : (s : Str) → All IsDigit s → Lacks b'.' s
digits-Lacks [] h = tt
digits-Lacks (c ∷ s) (hc, h) = (ground arith, digits-Lacks s h)

pub digits-IsPlain : (s : Str) → All IsDigit s → All IsPlain s
digits-IsPlain [] h = tt
digits-IsPlain (c ∷ s) (hc, h) = (omega arith, digits-IsPlain s h)

pub is_empty-long : (s : Str) → 0 < length s → is_empty s ≡ false
is_empty-long [] l = elim l [ ]
is_empty-long (c ∷ s) l = refl

pub is_empty-append : (s t : Str) → 0 < length s → is_empty (s ++ t) ≡ false
is_empty-append [] t l = elim l [ ]
is_empty-append (c ∷ s) t l = refl

pub strip_minus-digits :
    (s t : Str) → 0 < length s → All IsDigit s → strip_minus (s ++ t) ≡ (false, s ++ t)
unfolding strip_minus
strip_minus-digits [] t l h = elim l [ ]
strip_minus-digits (c ∷ s) t l (hc, h) = ground arith

-- `scale` reads the digits with their padding, whatever the number of them.
pub scale-digits :
    (asset : Asset) (minus found : Bool) (before after : Str) (n : ℕ)
    → length after ≤ asset.decimals
    → let text = before ++ after ++ replicate (asset.decimals - length after) b'0' in
      All IsDigit text
      → 0 < length text
      → value 0 text ≡ some n
      → scale asset minus (record { before = before; after = after; found = found })
        ≡ ok (record { asset = asset; units = some (if minus then neg (pos n) else pos n) })
unfolding scale
scale-digits asset minus found before after n l h pos_length e =
    let within : (found && ltb asset.decimals (length after)) ≡ false = ground arith in
    rw (within, is_empty-long _ pos_length, set_string-digits _ n h pos_length e)
