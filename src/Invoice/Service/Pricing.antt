-- ===== src/Invoice/Service/Pricing.antt =====
-- The price of a new invoice, as `resolveAmount` of internal/invoice/service.go finds it.
use vex_pay.Common.{
  ◌≡◌, ◌≢◌, refl, sym, subst, inl, inr, true, false, ◌||◌, ◌↔◌, none, some, [], arith, Bool-cases,
  Option-cases, Result, ok, err, asset_mismatch, not_positive, fiat_disabled, amount_required,
}
use vex_pay.Common.Int.{ℤ, pos, ◌<ℤ◌, ltb_ℤ, more}
use vex_pay.Common.Text.{Str, str_eq_iff, is_empty}
use vex_pay.Money.{Asset, Amount, asset_eq, is_zero_amount, zero_amount, cmp}
use vex_pay.Invoice.Service.{Service, State, CreateParams, Pricer, resolve_amount}

asset_eq_iff : (a b : Asset) → (asset_eq a b ≡ true) ↔ (a ≡ b)
unfolding asset_eq
asset_eq_iff a b = ground (arith, str_eq_iff a.symbol b.symbol)

cmp-zero :
    (amount : Amount) (asset : Asset)
    → is_zero_amount amount ≡ false
    → (u : ℤ) × (amount.units ≡ some u) × ((cmp amount (zero_amount asset) ≡ more) ↔ (pos 0 <ℤ u))
unfolding is_zero_amount cmp zero_amount
cmp-zero amount asset nonzero = elim (Option-cases amount.units) [
  | inl unset ↦ absurd (cc (rw unset at nonzero))
  | inr (u, set) ↦ (u, set, rw set (ground arith))
]

module _ {S P W : Type 0} (svc : Service S P W) where
  -- what the requested price comes to, and the state behind it
  pub data IsPriced (asset : Asset) (p : CreateParams) (st : State S P)
      : Result (Amount × Str) → State S P → Type 0 where
    other_asset :
        is_zero_amount p.amount ≡ false
        → p.amount.asset ≢ asset
        → IsPriced asset p st (err asset_mismatch) st
    below_zero :
        (u : ℤ)
        → is_zero_amount p.amount ≡ false
        → p.amount.asset ≡ asset
        → p.amount.units ≡ some u
        → ¬ (pos 0 <ℤ u)
        → IsPriced asset p st (err not_positive) st
    in_crypto :
        (u : ℤ)
        → p.amount.asset ≡ asset
        → p.amount.units ≡ some u
        → pos 0 <ℤ u
        → IsPriced asset p st (ok (p.amount, [])) st
    no_pricer :
        is_zero_amount p.amount ≡ true
        → is_empty p.fiat_currency ≡ false
        → is_empty p.fiat_amount ≡ false
        → svc.pricer ≡ none
        → IsPriced asset p st (err fiat_disabled) st
    in_fiat :
        (pricer : Pricer P)
        → is_zero_amount p.amount ≡ true
        → is_empty p.fiat_currency ≡ false
        → is_empty p.fiat_amount ≡ false
        → svc.pricer ≡ some pricer
        → IsPriced asset p st
            (pricer.crypto_amount asset p.fiat_currency p.fiat_amount st.prices).0
            (record st {
              prices = (pricer.crypto_amount asset p.fiat_currency p.fiat_amount st.prices).1;
            })
    no_price :
        is_zero_amount p.amount ≡ true
        → (is_empty p.fiat_currency || is_empty p.fiat_amount) ≡ true
        → IsPriced asset p st (err amount_required) st

  resolve_given :
      (asset : Asset) (p : CreateParams) (st : State S P)
      → is_zero_amount p.amount ≡ false
      → IsPriced asset p st (resolve_amount svc asset p st).0 (resolve_amount svc asset p st).1
  unfolding resolve_amount
  resolve_given asset p st nonzero =
      let (u, set, positive) = cmp-zero p.amount asset nonzero in
      elim (Bool-cases (asset_eq p.amount.asset asset)) [
        | inr other ↦
            rw (nonzero, other)
              (other_asset nonzero (λ same. cc ((asset_eq_iff p.amount.asset asset).1 same, other)))
        | inl same ↦
            let fits = (asset_eq_iff p.amount.asset asset).0 same in
            elim (Bool-cases (ltb_ℤ (pos 0) u)) [
              | inl above ↦
                  let much : pos 0 <ℤ u = ground (arith, above) in
                  rw (nonzero, same, positive.1 much) (in_crypto u fits set much)
              | inr below ↦
                  let little : ¬ (pos 0 <ℤ u) = λ much. ground (arith, much, below) in
                  let e : resolve_amount svc asset p st ≡ (err not_positive, st) =
                    ground (arith, nonzero, same, positive, little) in
                  subst (λ out. IsPriced asset p st out.0 out.1) (sym e)
                    (below_zero u nonzero fits set little)
            ]
      ]

  resolve_fiat :
      (asset : Asset) (p : CreateParams) (st : State S P)
      → is_zero_amount p.amount ≡ true
      → is_empty p.fiat_currency ≡ false
      → is_empty p.fiat_amount ≡ false
      → IsPriced asset p st (resolve_amount svc asset p st).0 (resolve_amount svc asset p st).1
  unfolding resolve_amount
  resolve_fiat asset p st no_amount currency amount = elim (Option-cases svc.pricer) [
    | inl off ↦
        let e : resolve_amount svc asset p st ≡ (err fiat_disabled, st) =
          rw (no_amount, currency, amount, off) refl in
        subst (λ out. IsPriced asset p st out.0 out.1) (sym e)
          (no_pricer no_amount currency amount off)
    | inr (pricer, on) ↦
        let r = pricer.crypto_amount asset p.fiat_currency p.fiat_amount st.prices in
        let e : resolve_amount svc asset p st ≡ (r.0, record st { prices = r.1 }) =
          rw (no_amount, currency, amount, on) refl in
        subst (λ out. IsPriced asset p st out.0 out.1) (sym e)
          (in_fiat pricer no_amount currency amount on)
  ]

  pub resolve-IsPriced :
      (asset : Asset) (p : CreateParams) (st : State S P)
      → IsPriced asset p st (resolve_amount svc asset p st).0 (resolve_amount svc asset p st).1
  unfolding resolve_amount
  resolve-IsPriced asset p st = elim (Bool-cases (is_zero_amount p.amount)) [
    | inr nonzero ↦ resolve_given asset p st nonzero
    | inl no_amount ↦ elim (Bool-cases (is_empty p.fiat_currency)) [
      | inl none_given ↦ rw (no_amount, none_given) (no_price no_amount (rw none_given refl))
      | inr currency ↦ elim (Bool-cases (is_empty p.fiat_amount)) [
        | inl none_given ↦
            rw (no_amount, currency, none_given)
              (no_price no_amount (rw (currency, none_given) refl))
        | inr amount ↦ resolve_fiat asset p st no_amount currency amount
      ]
    ]
  ]
