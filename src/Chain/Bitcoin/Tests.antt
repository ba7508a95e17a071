-- ===== src/Chain/Bitcoin/Tests.antt =====
-- internal/chain/btc at concrete inputs: an explorer that knows one address with one payment, three
-- blocks below the tip.
use vex_pay.Common.{◌≡◌, refl, true, some, [], ◌∷◌, arith, ok}
use vex_pay.Common.Int.{pos, ◌+ℤ◌, ◌-ℤ◌}
use vex_pay.Common.Int.Machine.{wrap64}
use vex_pay.Common.Text.{codes, str_eq}
use vex_pay.Money.{from_units, is_zero_amount}
use vex_pay.Chain.{Observation, ReceiveTarget, address_per_invoice}
use vex_pay.Chain.Bitcoin.{
  Explorer, EsploraTx, mainnet, pays_address, depth, read_txs, funded_status, status_of,
  address_status, observed, btc_check,
}
use vex_pay.Chain.Bitcoin.Depth.{IsBacked, btc_check-IsBacked, depth-exact}

abbrev payment : EsploraTx
payment = record {
  tx_id = codes "t";
  vout = codes "y" ∷ codes "x" ∷ [];
  confirmed = true;
  block_height = pos 800000;
}

abbrev explorer : Explorer (Unit {0})
explorer = record {
  address = λ w a. ok (record { chain_funded = pos 5000; mempool_funded = pos 70 });
  tip_height = λ w. ok (pos 800002);
  txs = λ w a. ok (record payment { vout = codes "z" ∷ [] } ∷ payment ∷ []);
}

abbrev target : ReceiveTarget
target = record {
  address = codes "x";
  exact_amount = record { asset = mainnet.asset; units = some (pos 5070) };
  strategy = address_per_invoice;
  derivation_index = 0;
}

abbrev seen : Observation
seen = record {
  seen = true;
  received = record { asset = mainnet.asset; units = some (pos 5070) };
  confirmations = pos 3;
  tx_hash = codes "t";
}

btc_check_test : btc_check mainnet (address_status explorer) tt target ≡ ok seen
unfolding btc_check address_status status_of funded_status read_txs pays_address str_eq depth wrap64
    ◌+ℤ◌ ◌-ℤ◌ observed from_units is_zero_amount
btc_check_test = refl

btc_check-IsBacked_example : IsBacked explorer tt (codes "x") mainnet.asset seen
btc_check-IsBacked_example = btc_check-IsBacked mainnet explorer tt target seen btc_check_test

depth-exact_test : depth (pos 800002) payment ≡ pos 3
depth-exact_test = depth-exact 800002 800000 payment (omega arith) (omega arith) refl
