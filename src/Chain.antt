-- ===== src/Chain.antt =====
-- internal/chain: what an adapter is, and the registry. `W` is the state of everything an adapter
-- observes: the blockchains and the sandbox ledger.
pub mod Mock
pub mod Bitcoin
pub mod Laws
pub mod Tests
use vex_pay.Common.{
  ℕ, ◌≡◌, Bool, true, false, Option, none, some, List, [], ◌∷◌, ltb, ◌==◌, ◌&&◌, ◌||◌,
  if◌then◌else◌, Error, Result, ok, err, already_registered, no_adapter, or_err,
}
use vex_pay.Common.Int.{ℤ}
use vex_pay.Common.Text.{Str}
use vex_pay.Common.Dict.{Dict, get, put}
use vex_pay.Money.{Asset, Amount}

pub data ReceiveStrategy : Type 0 where
  address_per_invoice unique_amount : ReceiveStrategy

pub record WalletConfig : Type 0 where
  pub xpub : Str
  pub address : Str
  pub view_key : Str
  pub primary_address : Str

pub record ReceiveTarget : Type 0 where
  pub address : Str
  pub exact_amount : Amount
  pub strategy : ReceiveStrategy
  pub derivation_index : ℕ

pub record Observation : Type 0 where
  pub seen : Bool
  pub received : Amount
  pub confirmations : ℤ
  pub tx_hash : Str

-- the `Adapter` interface
pub record Adapter (W : Type 0) : Type 0 where
  pub chain : Str
  pub asset : Asset
  pub required_confirmations : ℤ
  pub derive_receive_target : WalletConfig → ℕ → Amount → Result ReceiveTarget
  pub check_payment : W → ReceiveTarget → Result Observation
  pub payment_uri : ReceiveTarget → Str

abbrev pub Registry : Type 0 → Type 0
Registry W = Dict (Adapter W)

-- `a < b` on strings
unfoldable pub str_ltb : Str → Str → Bool
str_ltb [] [] = false
str_ltb [] (d ∷ t) = true
str_ltb (c ∷ s) [] = false
str_ltb (c ∷ s) (d ∷ t) = ltb c d || c == d && str_ltb s t

-- `sort.Slice` by `<`; the keys of a map are distinct, so the order is the only sorted one
insert_id : Str → List Str → List Str
unfolding str_ltb
insert_id x [] = x ∷ []
insert_id x (y ∷ ys) = if str_ltb x y then x ∷ y ∷ ys else y ∷ insert_id x ys

module _ {W : Type 0} where
  unfoldable pub register : Adapter W → Registry W → Result (Registry W)
  register a r = elim (get r a.chain) [
    | some _ ↦ err already_registered
    | none ↦ ok (put r a.chain a)
  ]

  unfoldable pub find_adapter : Registry W → Str → Result (Adapter W)
  find_adapter r id = or_err (get r id) no_adapter

  unfoldable pub chains : Registry W → List Str
  unfolding insert_id
  chains [] = []
  chains ((id, _) ∷ r) = insert_id id (chains r)
