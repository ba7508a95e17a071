-- ===== src/Chain/Mock.antt =====
-- internal/chain/mock: the sandbox chain, a ledger in memory that the simulator writes to.
use vex_pay.Common.{
  ℕ, ◌-◌, true, false, none, some, [], ◌++◌, if◌then◌else◌, length, replicate, Result, ok,
}
use vex_pay.Common.Int.{ℤ, pos, ltb_ℤ}
use vex_pay.Common.Text.{Str, codes}
use vex_pay.Common.Text.Decimal.{digits}
use vex_pay.Common.Dict.{Dict, get, put}
use vex_pay.Money.{Asset, Amount, tbtc, zero_amount, string}
use vex_pay.Chain.{WalletConfig, ReceiveTarget, Observation, Adapter, address_per_invoice}

abbrev pub chain_id : Str
chain_id = codes "mock"

pub record Entry : Type 0 where
  pub received : Amount
  pub confirmations : ℤ
  pub tx_hash : Str

abbrev pub Ledger : Type 0
Ledger = Dict Entry

-- `fmt.Sprintf("%08d", n)`
unfoldable pub pad_eight : ℕ → Str
pad_eight n = let s = digits n in replicate (8 - length s) b'0' ++ s

unfoldable pub mock_address : ℕ → Str
mock_address index = codes "sbx1q" ++ pad_eight index

unfoldable pub mock_derive : WalletConfig → ℕ → Amount → Result ReceiveTarget
mock_derive _ index requested = ok (record {
  address = mock_address index;
  exact_amount = requested;
  strategy = address_per_invoice;
  derivation_index = index;
})

unfoldable pub mock_check : Asset → Ledger → ReceiveTarget → Result Observation
mock_check asset ledger target = elim (get ledger target.address) [
  | none ↦
      ok
        (record { seen = false; received = zero_amount asset; confirmations = pos 0; tx_hash = [] })
  | some e ↦ ok (record {
    seen = true;
    received = e.received;
    confirmations = e.confirmations;
    tx_hash = e.tx_hash;
  })
]

unfoldable pub mock_uri : ReceiveTarget → Str
mock_uri target =
    codes "sandbox:" ++ target.address ++ codes "?amount=" ++ string target.exact_amount

-- `New`: the adapter over the part of the world that is its ledger
unfoldable pub mock_adapter : {W : Type 0} → (W → Ledger) → ℤ → Adapter W
unfolding mock_derive mock_check mock_uri
mock_adapter ledger required = record {
  chain = chain_id;
  asset = tbtc;
  required_confirmations = if ltb_ℤ required (pos 1) then pos 1 else required;
  derive_receive_target = mock_derive;
  check_payment = λ w target. mock_check tbtc (ledger w) target;
  payment_uri = mock_uri;
}

-- `Pay`
unfoldable pub pay : Str → Amount → ℤ → Str → Ledger → Ledger
pay address amount confirmations tx_hash ledger =
    put ledger address
      (record { received = amount; confirmations = confirmations; tx_hash = tx_hash })
