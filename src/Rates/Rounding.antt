-- ===== src/Rates/Rounding.antt =====
-- internal/rates/rates.go, `CryptoAmount`: what is charged for a fiat amount.
use vex_pay.Common.{
  ℕ, zero, suc, ◌*◌, ◌+◌, ◌≤◌, ◌<◌, ◌^◌, ◌≡◌, refl, ◌⊎◌, inl, inr, true, false, some, arith,
  Bool-cases, Option-cases, Result-cases, Error, ok, err, invalid_fiat, some-injective, sym, ap,
  ◌∙◌, subst,
}
use vex_pay.Common.Int.{pos}
use vex_pay.Common.Text.{Str}
use vex_pay.Common.Text.Space.{trim_space}
use vex_pay.Common.Act.{◌>>=◌}
use vex_pay.Money.{Asset, Amount, from_units}
use vex_pay.Invoice.{Time}
use vex_pay.Rates.{Cache, Oracle, Texts, price, read_fiat, units_for, crypto_amount}
use vex_pay.Rates.Rational.{Rat, is_pos, top, den, pow10, float_string, units-least}
use vex_pay.Rates.Fresh.{IsSoundCache, price-IsSoundCache}
use native.Mathlib.Nat.{pow-suc}

-- the least number of the asset's smallest units that are worth the fiat amount at the price:
-- `units / 10^decimals * price ≥ fiat`, with the fractions cleared
pub record IsWorth (asset : Asset) (fiat price : Rat) (amount : Amount) : Type 0 where
  pub units : ℕ
  pub is_amount : amount ≡ from_units asset (pos units)
  pub positive : 0 < units
  pub enough : top fiat * den price * 10 ^ asset.decimals ≤ units * (den fiat * top price)
  pub least :
      units * (den fiat * top price)
      < top fiat * den price * 10 ^ asset.decimals + den fiat * top price

ten_pow_pos : (n : ℕ) → 0 < 10 ^ n
ten_pow_pos zero = omega arith
ten_pow_pos (suc n) = omega (arith, pow-suc, ten_pow_pos n)

units_for-IsWorth :
    (asset : Asset) (fiat price : Rat)
    → is_pos fiat ≡ true
    → is_pos price ≡ true
    → IsWorth asset fiat price (from_units asset (units_for asset fiat price))
unfolding units_for pow10
units_for-IsWorth asset fiat price pf pp =
    let (u, e, positive, up, low) =
      units-least fiat price (10 ^ asset.decimals) pf pp (ten_pow_pos asset.decimals) in
    record {
      units = u;
      is_amount = ap (from_units asset) e;
      positive = positive;
      enough = up;
      least = low;
    }

-- the text names no positive amount
abbrev pub IsNoAmount : Texts → Str → Type 0
IsNoAmount texts text =
    (f : Rat) → texts.rat_set_string (trim_space text) ≡ some f → is_pos f ≡ false

read_fiat-cases :
    (texts : Texts) (text : Str)
    → ((read_fiat texts text ≡ err invalid_fiat) × IsNoAmount texts text)
      ⊎ ((f : Rat) × (texts.rat_set_string (trim_space text) ≡ some f)
          × (is_pos f ≡ true)
          × (read_fiat texts text ≡ ok f))
unfolding read_fiat
read_fiat-cases texts text = elim (Option-cases (texts.rat_set_string (trim_space text))) [
  | inl bad ↦ inl (rw (bad, read_fiat) refl, λ f h. cc)
  | inr (f, e) ↦ elim (Bool-cases (is_pos f)) [
    | inl positive ↦ inr (f, e, positive, rw (e, positive, read_fiat) refl)
    | inr useless ↦ inl (
      rw (e, useless, read_fiat) refl,
      λ g h. subst (λ x. is_pos x ≡ false) (some-injective (sym e ∙ h)) useless,
    )
  ]
]

module _ {W : Type 0} (texts : Texts) (o : Oracle W) where
  -- no price or no amount to convert; or an amount and the price it is worked out with
  abbrev pub Charged : W → Time → Time → Asset → Str → Str → Cache → Type 0
  Charged w now now' asset currency text cache =
      let (priced, cache') = price texts o w now now' asset currency cache in
      let out = crypto_amount texts o w now now' asset currency text cache in
      ((e : Error) × (out ≡ (err e, cache'))
        × ((priced ≡ err e) ⊎ ((e ≡ invalid_fiat) × IsNoAmount texts text)))
      ⊎ ((p fiat : Rat) × (amount : Amount) × (priced ≡ ok p)
          × (texts.rat_set_string (trim_space text) ≡ some fiat)
          × (out ≡ (ok (amount, float_string 8 p), cache'))
          × IsWorth asset fiat p amount)

  -- With a cache of positive prices, `CryptoAmount` fails exactly when there is no price or the text
  -- names no positive amount. Otherwise it charges the least number of units that are worth the
  -- fiat amount at the oracle's price: rounding never costs the merchant anything, and the buyer
  -- less than one unit. The rate is that price to eight decimals.
  pub crypto_amount-IsWorth :
      (w : W) (now now' : Time) (asset : Asset) (currency text : Str) (cache : Cache)
      → IsSoundCache cache
      → Charged w now now' asset currency text cache
  unfolding crypto_amount
  crypto_amount-IsWorth w now now' asset currency text cache sound =
      let quote = price texts o w now now' asset currency cache in
      elim (Result-cases quote.0) [
        | inl (e, failed) ↦ inl (e, rw (failed, ◌>>=◌) refl, inl failed)
        | inr (p, priced) ↦ elim (read_fiat-cases texts text) [
          | inl (bad, no_amount) ↦
              inl (invalid_fiat, rw (priced, bad, ◌>>=◌) refl, inr (refl, no_amount))
          | inr (f, reads, positive, good) ↦ inr (
            p,
            f,
            from_units asset (units_for asset f p),
            priced,
            reads,
            rw (priced, good, ◌>>=◌) refl,
            units_for-IsWorth asset f p positive
                ((price-IsSoundCache texts o w now now' asset currency cache sound).1 p priced),
          )
        ]
      ]
