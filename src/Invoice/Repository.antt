-- ===== src/Invoice/Repository.antt =====
-- internal/invoice/repository.go: the interface of a repository over its state `S`, and what the
-- service may rely on.
use vex_pay.Common.{ℕ, ◌≡◌, arith, false, List, Result, ok, err, not_found}
use vex_pay.Common.Int.{ℤ}
use vex_pay.Common.Text.{Str, str_eq}
use vex_pay.Common.Act.{Act}
use vex_pay.Invoice.{Invoice}

pub record Repository (S : Type 0) : Type 0 where
  pub create : Invoice → Act S (Unit {0})
  pub get : Str → S → Result Invoice
  pub update : Invoice → Act S (Unit {0})
  pub list_open : S → Result (List Invoice)
  pub list_by_merchant : Str → ℤ → ℤ → S → Result (List Invoice)
  pub next_derivation_index : Str → Act S ℕ

-- two versions of one invoice: what `Update` need not write
pub record SameTerms (a b : Invoice) : Type 0 where
  pub id : b.id ≡ a.id
  pub merchant_id : b.merchant_id ≡ a.merchant_id
  pub chain : b.chain ≡ a.chain
  pub asset : b.asset ≡ a.asset
  pub amount : b.amount ≡ a.amount
  pub fiat_currency : b.fiat_currency ≡ a.fiat_currency
  pub fiat_amount : b.fiat_amount ≡ a.fiat_amount
  pub rate : b.rate ≡ a.rate
  pub receive_address : b.receive_address ≡ a.receive_address
  pub payment_uri : b.payment_uri ≡ a.payment_uri
  pub strategy : b.strategy ≡ a.strategy
  pub derivation_index : b.derivation_index ≡ a.derivation_index
  pub required_confs : b.required_confs ≡ a.required_confs
  pub metadata : b.metadata ≡ a.metadata
  pub created_at : b.created_at ≡ a.created_at
  pub expires_at : b.expires_at ≡ a.expires_at

pub SameTerms-refl : (a : Invoice) → SameTerms a a
SameTerms-refl a = ground arith

pub SameTerms-symm : (a b : Invoice) → SameTerms a b → SameTerms b a
SameTerms-symm a b h = ground arith

pub SameTerms-trans : (a b c : Invoice) → SameTerms a b → SameTerms b c → SameTerms a c
SameTerms-trans a b c h k = ground arith

-- What the service relies on. `Good` holds of every state that the methods make.
pub record RepositoryLaws {S : Type 0} (repo : Repository S) (Good : S → Type 0) : Type 0 where
  pub create_get :
      (inv : Invoice) (s : S)
      → Good s
      → repo.get inv.id s ≡ err not_found
      → ((repo.create inv s).0 ≡ ok tt) × (repo.get inv.id (repo.create inv s).1 ≡ ok inv)
  pub create_other :
      (inv : Invoice) (s : S) (id : Str)
      → Good s
      → str_eq inv.id id ≡ false
      → repo.get id (repo.create inv s).1 ≡ repo.get id s
  pub create_good :
      (inv : Invoice) (s : S)
      → Good s
      → repo.get inv.id s ≡ err not_found
      → Good (repo.create inv s).1
  pub get_id : (id : Str) (s : S) (inv : Invoice) → Good s → repo.get id s ≡ ok inv → inv.id ≡ id
  pub update_get :
      (old inv : Invoice) (s : S)
      → Good s
      → repo.get inv.id s ≡ ok old
      → SameTerms old inv
      → ((repo.update inv s).0 ≡ ok tt) × (repo.get inv.id (repo.update inv s).1 ≡ ok inv)
  pub update_other :
      (inv : Invoice) (s : S) (id : Str)
      → Good s
      → str_eq inv.id id ≡ false
      → repo.get id (repo.update inv s).1 ≡ repo.get id s
  pub update_missing :
      (inv : Invoice) (s : S)
      → Good s
      → repo.get inv.id s ≡ err not_found
      → repo.update inv s ≡ (err not_found, s)
  pub update_good : (inv : Invoice) (s : S) → Good s → Good (repo.update inv s).1
  pub index_get :
      (merchant id : Str) (s : S)
      → Good s
      → repo.get id (repo.next_derivation_index merchant s).1 ≡ repo.get id s
  pub index_good :
      (merchant : Str) (s : S) → Good s → Good (repo.next_derivation_index merchant s).1
