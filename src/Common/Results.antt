-- ===== src/Common/Results.antt =====
-- `(value, error)` results of Go. An error is told apart by the place that makes it; its message
-- text is not modelled.
use mathlib.Core.Path.{◌≡◌, refl}
use mathlib.Core.Logic.{◌⊎◌, inl, inr}
use mathlib.Core.Bool.{Bool, true, false}
use mathlib.Core.Option.{Option, none, some}

pub data Error : Type 0 where
  -- money
  empty_amount too_precise invalid_amount unknown_asset : Error
  -- chain, btc
  already_registered no_adapter xpub_required bad_xpub derive_failed check_failed : Error
  -- invoice
  merchant_required asset_mismatch not_positive fiat_disabled amount_required : Error
  not_found insert_failed query_failed slice_bounds : Error
  -- store
  update_failed index_failed invalid_stored_amount missing_scheme path_required : Error
  postgres_missing unsupported_scheme canceled : Error
  -- answers over HTTP
  bad_status decode_failed no_coin_id no_price invalid_price : Error
  -- webhook
  malformed_header invalid_timestamp outside_tolerance signature_mismatch : Error
  -- config
  invalid_duration invalid_confirmations invalid_config : Error
  -- qr
  empty_content qr_failed : Error
  -- rates
  no_rate non_positive_price provider_failed invalid_fiat : Error

pub data Result {ℓ} (A : Type ℓ) : Type ℓ where
  err : Error → Result A
  ok : A → Result A

-- `if b { return err }`
abbrev pub fail_if : Bool → Error → Result (Unit {0})
fail_if true e = err e
fail_if false e = ok tt

abbrev pub or_err {ℓ} : {A : Type ℓ} → Option A → Error → Result A
or_err none e = err e
or_err (some a) e = ok a

infixl 5 ◌>>=◌ ◌>>◌
-- `if err != nil { return err }` between two steps
abbrev pub ◌>>=◌ {ℓ κ} : {A : Type ℓ} {B : Type κ} → Result A → (A → Result B) → Result B
(err e) >>= next = err e
(ok a) >>= next = next a

abbrev pub ◌>>◌ {ℓ} : {B : Type ℓ} → Result (Unit {0}) → Result B → Result B
first >> second = first >>= λ done. second

pub ok-injective {ℓ} : {A : Type ℓ} {a b : A} → ok a ≡ ok b → a ≡ b
ok-injective h = cc

pub Result-cases {ℓ} :
    {A : Type ℓ} (r : Result A) → ((e : Error) × (r ≡ err e)) ⊎ ((a : A) × (r ≡ ok a))
Result-cases (ok a) = inr (a, refl)
Result-cases (err e) = inl (e, refl)

-- a sequence that ends well went well in both of its steps
pub bind_steps {ℓ κ} :
    {A : Type ℓ} {B : Type κ} (next : A → Result B) (b : B) (first : Result A)
    → (first >>= next) ≡ ok b
    → (a : A) × ((first ≡ ok a) × (next a ≡ ok b))
bind_steps next b (err e) h = absurd (cc h)
bind_steps next b (ok a) h = (a, (refl, h))
