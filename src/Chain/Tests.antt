-- ===== src/Chain/Tests.antt =====
-- internal/chain at concrete inputs.
use vex_pay.Common.{ℕ, ◌≡◌, refl, some, [], ◌∷◌, true, ok, err, already_registered}
use vex_pay.Common.Int.{pos}
use vex_pay.Common.Text.{codes, str_eq}
use vex_pay.Common.Dict.{get, put}
use vex_pay.Money.{tbtc}
use vex_pay.Chain.{Adapter, Registry, ReceiveTarget, register, address_per_invoice}
use vex_pay.Chain.Mock.{Ledger, mock_adapter, mock_check, pay}
use vex_pay.Chain.Laws.{find_adapter-register, mock_check-pay, mock_address_injective}

abbrev sandbox : Adapter Ledger
sandbox = mock_adapter (λ w. w) (pos 0)

abbrev registered : Registry Ledger
registered = (sandbox.chain, sandbox) ∷ []

register_test : register sandbox [] ≡ ok registered
unfolding register get put
register_test = refl

find_adapter-register_test : register sandbox registered ≡ err already_registered
find_adapter-register_test =
    (find_adapter-register sandbox sandbox [] registered sandbox.chain register_test refl).1

abbrev target : ReceiveTarget
target = record {
  address = codes "x";
  exact_amount = record { asset = tbtc; units = some (pos 5) };
  strategy = address_per_invoice;
  derivation_index = 0;
}

mock_check-pay_test :
    mock_check tbtc (pay (codes "x") target.exact_amount (pos 1) (codes "t") []) target
    ≡ ok (record {
      seen = true;
      received = target.exact_amount;
      confirmations = pos 1;
      tx_hash = codes "t";
    })
unfolding str_eq
mock_check-pay_test =
    mock_check-pay tbtc [] (codes "x") target.exact_amount (pos 1) (codes "t") target

mock_address_injective_test : ◌≡◌ {A = ℕ} 7 7
mock_address_injective_test = mock_address_injective 7 7 refl
