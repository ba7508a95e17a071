-- ===== src/Money/RoundTrip.antt =====
-- internal/money/money.go: `String` followed by `ParseDecimal`.
use vex_pay.Common.{
  ℕ, suc, ◌+◌, ◌-◌, ◌<◌, ◌≡◌, refl, ◌∙◌, Bool, true, false, some, [], ◌∷◌, ◌++◌, inl, inr,
  Bool-cases, append-nil, arith, ltb, leb, ◌&&◌, ◌==◌, if◌then◌else◌, length, take, drop, All,
  All-append, All-take, All-drop, All-replicate, length-append, length-drop, length-replicate,
  take-append-drop, length-take, eqb_iff, ok,
}
use native.Mathlib.Nat.{le_trans}
use vex_pay.Common.Int.{ℤ, pos, negsuc, neg, neg-neg}
use vex_pay.Common.Text.{Str, is_empty, Cut, cut, cut-append, cut-Lacks}
use vex_pay.Common.Text.Space.{IsPlain, trim_space-plain}
use vex_pay.Common.Text.Decimal.{
  IsDigit, digits, value, value-zeros, value-digits, digits-IsDigit, length-digits_pos,
  set_string-minus_digits,
}
use vex_pay.Money.Scale.{
  digits-Lacks, digits-IsPlain, is_empty-long, is_empty-append, strip_minus-digits, scale-digits,
}
use vex_pay.Money.{
  Asset, Amount, from_units, must_units, strip_minus, scale, parse_decimal, pad, point, magnitude,
  string,
}

-- digits that spell `n`, more of them than there are decimals
record Spells (decimals n : ℕ) (s : Str) : Type 0 where
  all_digits : All IsDigit s
  long : decimals < length s
  spelled : value 0 s ≡ some n

digits-Spells : (d n : ℕ) → d ≡ 0 → Spells d n (digits n)
digits-Spells d n e = record {
  all_digits = digits-IsDigit n;
  long = omega (arith, length-digits_pos n);
  spelled = value-digits n;
}

pad-Spells : (d n : ℕ) → Spells d n (pad d (digits n))
unfolding pad
pad-Spells d n = elim (Bool-cases (leb (length (digits n)) d)) [
  | inl short ↦ rw short (record {
    all_digits =
        All-append IsDigit _ _ (All-replicate IsDigit _ _ (omega arith)) (digits-IsDigit n);
    long = rw (length-append, length-replicate) (omega arith);
    spelled = value-zeros (d - length (digits n) + 1) (digits n) ∙ value-digits n;
  })
  | inr enough ↦
      rw enough
        (record { all_digits = digits-IsDigit n; long = ground arith; spelled = value-digits n })
]

scale-Spells :
    (asset : Asset) (minus found : Bool) (before after : Str) (n : ℕ)
    → Spells asset.decimals n (before ++ after)
    → asset.decimals ≡ length after
    → scale asset minus (record { before = before; after = after; found = found })
      ≡ ok (record { asset = asset; units = some (if minus then neg (pos n) else pos n) })
scale-Spells asset minus found before after n h e =
    let none_left : asset.decimals - length after ≡ 0 = omega arith in
    scale-digits asset minus found before after n (omega arith)
      (rw (none_left, append-nil) h.all_digits)
      (rw (none_left, append-nil) (le_trans (omega arith) h.long))
      (rw (none_left, append-nil) h.spelled)

-- what the parser finds in a printed magnitude
record Printed (decimals n : ℕ) (m : Str) : Type 0 where
  parts : Cut
  plain : All IsPlain m
  full : is_empty m ≡ false
  unsigned : strip_minus m ≡ (false, m)
  split : cut b'.' m ≡ parts
  spells : Spells decimals n (parts.before ++ parts.after)
  precise : decimals ≡ length parts.after

whole-Printed : (d n : ℕ) (s : Str) → d ≡ 0 → Spells d n s → Printed d n s
whole-Printed d n s e h = record {
  parts = record { before = s; after = []; found = false };
  plain = digits-IsPlain s h.all_digits;
  full = is_empty-long s (omega (arith, h.long));
  unsigned = rw (append-nil) at (strip_minus-digits s [] (omega (arith, h.long)) h.all_digits);
  split = cut-Lacks b'.' s (digits-Lacks s h.all_digits);
  spells = rw append-nil h;
  precise = e;
}

point-Printed : (d n : ℕ) (s : Str) → Spells d n s → Printed d n (point d s)
unfolding point
point-Printed d n s h =
    let k : ℕ = length s - d in
    let int = All-take IsDigit k s h.all_digits in
    let frac = All-drop IsDigit k s h.all_digits in
    let l : 0 < length (take k s) = omega (arith, length-take k s, h.long) in
    record {
      parts = record { before = take k s; after = drop k s; found = true };
      plain = All-append IsPlain _ _ (digits-IsPlain _ int) (omega arith, digits-IsPlain _ frac);
      full = is_empty-append _ _ l;
      unsigned = strip_minus-digits _ _ l int;
      split = cut-append b'.' _ _ (digits-Lacks _ int);
      spells = rw (take-append-drop k s) h;
      precise = rw (length-drop k s) (omega (arith, h.long));
    }

magnitude-Printed : (d n : ℕ) → Printed d n (magnitude d (digits n))
unfolding magnitude
magnitude-Printed d n = elim (Bool-cases (d == 0)) [
  | inl whole ↦ rw whole (
      whole-Printed d n (digits n) ((eqb_iff d 0).0 whole)
        (digits-Spells d n ((eqb_iff d 0).0 whole)))
  | inr fraction ↦ rw fraction (point-Printed d n _ (pad-Spells d n))
]

parse-positive :
    (asset : Asset) (m : Str) (n : ℕ)
    → Printed asset.decimals n m
    → parse_decimal asset m ≡ ok (record { asset = asset; units = some (pos n) })
unfolding parse_decimal
parse-positive asset m n h =
    rw (trim_space-plain m h.plain, h.full, h.unsigned, h.split)
      (scale-Spells asset false h.parts.found h.parts.before h.parts.after n h.spells h.precise)

parse-negative :
    (asset : Asset) (m : Str) (n : ℕ)
    → Printed asset.decimals n m
    → parse_decimal asset (b'-' ∷ m) ≡ ok (record { asset = asset; units = some (neg (pos n)) })
unfolding parse_decimal
parse-negative asset m n h =
    rw (trim_space-plain (b'-' ∷ m) (omega arith, h.plain), h.split)
      (scale-Spells asset true h.parts.found h.parts.before h.parts.after n h.spells h.precise)

cut-minus :
    (m : Str) → cut b'.' (b'-' ∷ m) ≡ record (cut b'.' m) { before = b'-' ∷ (cut b'.' m).before }
unfolding cut
cut-minus m = refl

scale-minus :
    (asset : Asset) (found : Bool) (before after : Str) (n : ℕ)
    → Spells asset.decimals n (before ++ after)
    → asset.decimals ≡ length after
    → scale asset true (record { before = b'-' ∷ before; after = after; found = found })
      ≡ ok (record { asset = asset; units = some (pos n) })
unfolding scale
scale-minus asset found before after n h e =
    let none_left : asset.decimals - length after ≡ 0 = omega arith in
    let within : (found && ltb asset.decimals (length after)) ≡ false = ground arith in
    rw (
      within,
      none_left,
      append-nil,
      set_string-minus_digits (before ++ after) n (le_trans (omega arith) h.long) h.spelled,
      neg-neg n,
    )

double-minus :
    (asset : Asset) (m : Str) (n : ℕ)
    → Printed asset.decimals n m
    → parse_decimal asset (b'-' ∷ b'-' ∷ m) ≡ ok (record { asset = asset; units = some (pos n) })
unfolding parse_decimal
double-minus asset m n h =
    rw
      (
        trim_space-plain (b'-' ∷ b'-' ∷ m) (omega arith, (omega arith, h.plain)),
        cut-minus m,
        h.split,
      )
      (scale-minus asset h.parts.found h.parts.before h.parts.after n h.spells h.precise)

parse-string :
    (asset : Asset) (units : ℤ)
    → parse_decimal asset (string (from_units asset units)) ≡ ok (from_units asset units)
unfolding string from_units
parse-string asset (pos n) = parse-positive asset _ n (magnitude-Printed asset.decimals n)
parse-string asset (negsuc n) =
    parse-negative asset _ (suc n) (magnitude-Printed asset.decimals (suc n))

string-must_units : (a : Amount) → string a ≡ string (from_units a.asset (must_units a))
unfolding string from_units
string-must_units a = refl

-- Whatever the amount, of whatever asset, negative ones included: `ParseDecimal` reads what
-- `String` prints back as the same amount in the same asset. (A nil amount is read as zero.)
pub parse_decimal-string :
    (a : Amount) → parse_decimal a.asset (string a) ≡ ok (from_units a.asset (must_units a))
parse_decimal-string a = rw (string-must_units a) (parse-string a.asset (must_units a))

-- `ParseDecimal` strips one minus, and `SetString` takes another: behind a second minus every
-- printed amount above zero is accepted, as the amount without any sign.
pub parse_decimal-double_minus :
    (asset : Asset) (n : ℕ)
    → parse_decimal asset (b'-' ∷ b'-' ∷ string (from_units asset (pos (suc n))))
      ≡ ok (from_units asset (pos (suc n)))
unfolding parse_decimal string from_units
parse_decimal-double_minus asset n =
    double-minus asset _ (suc n) (magnitude-Printed asset.decimals (suc n))
