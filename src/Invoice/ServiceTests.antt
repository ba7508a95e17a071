-- ===== src/Invoice/ServiceTests.antt =====
-- internal/invoice/service.go at concrete inputs: creations, loops and interleavings.
use vex_pay.Common.{
  length, replicate, All-replicate, ◌≡◌, refl, some, [], ◌∷◌, arith, take, drop, ok, err, not_found,
}
use vex_pay.Common.Int.{pos}
use vex_pay.Common.Text.{Str, codes, str_eq}
use vex_pay.Common.Dict.{get}
use vex_pay.Money.{tbtc, from_units, must_units, parse_decimal}
use vex_pay.Chain.Mock.{chain_id}
use vex_pay.Invoice.{is_terminal}
use vex_pay.Invoice.Ids.{new_invoice_id, new_invoice_id_injective, IsByte}
use vex_pay.Invoice.View.{new_view, parse_decimal-new_view}
use vex_pay.Invoice.Memory.{
  MemRepository, new_mem_repository, mem_repository, mem_list_open, mem_list_by_merchant,
  mem_next_derivation_index, mem_get,
}
use vex_pay.Invoice.Memory.Laws.{IsConsistent, mem_laws}
use vex_pay.Invoice.Memory.Listing.{Elem, mem_list_open-exact}
use vex_pay.Invoice.Memory.Merchant.{mem_list_by_merchant-exact}
use vex_pay.Invoice.Memory.Indices.{after, nth_index}
use vex_pay.Invoice.Service.{State, CreateParams, advance, create, process_open}
use vex_pay.Invoice.Service.Create.{Created, create-Created}
use vex_pay.Invoice.Service.Outcome.{Outcome, create-Outcome}
use vex_pay.Invoice.Service.Rounds.{process_open-each}
use vex_pay.Invoice.Service.Safety.{Config, IsSafe, here, next, create_step}
use vex_pay.Invoice.Service.Safety.Steps.{Reach-IsSafe}
use vex_pay.Invoice.Tests.{
  sample, payment, mock_service, store_of, state_of, paid_ledger, consistent, sees_payment,
  still_open,
}

abbrev params : CreateParams
params = record {
  merchant_id = codes "m";
  chain = chain_id;
  wallet = record { xpub = []; address = []; view_key = []; primary_address = [] };
  amount = record { asset = tbtc; units = some (pos 100) };
  fiat_currency = [];
  fiat_amount = [];
  rate = [];
  metadata = [];
}

abbrev empty_state : State MemRepository (Unit {0})
empty_state = record { store = new_mem_repository; prices = tt; events = [] }

create-Created_test :
    Created mock_service
      (pos 1000)
      (codes "b")
      params
      empty_state
      (create mock_service (pos 1000) (codes "b") params empty_state)
create-Created_test = create-Created mock_service (pos 1000) (codes "b") params empty_state

create-Outcome_example :
    Outcome mock_service
      (pos 1000)
      (codes "b")
      params
      empty_state
      (create mock_service (pos 1000) (codes "b") params empty_state)
create-Outcome_example = create-Outcome mock_service (pos 1000) (codes "b") params empty_state

nothing_stored : (id : Str) → mem_repository.get id new_mem_repository ≡ err not_found
unfolding mem_repository get
nothing_stored id = refl

abbrev start : Config MemRepository (Unit {0})
start = record { state = empty_state; held = [] }

start-IsSafe : IsSafe mock_service IsConsistent start
start-IsSafe = record {
  good = record { indexed = tt; ordered = refl };
  stored = λ id inv e. absurd (cc (nothing_stored id));
  held = tt;
}

Reach-IsSafe_example :
    IsSafe mock_service IsConsistent
      (record start { state = (create mock_service (pos 1000) (codes "b") params empty_state).1 })
Reach-IsSafe_example =
    Reach-IsSafe mock_service IsConsistent mem_laws start-IsSafe
      (next here (create_step (pos 1000) (codes "b") params (nothing_stored (codes "b"))))

nth_index_example :
    (mem_next_derivation_index (codes "m") (after 2 (codes "m") new_mem_repository)).0 ≡ ok 2
unfolding get
nth_index_example = nth_index 2 (codes "m") new_mem_repository refl

parse_decimal-new_view_test :
    parse_decimal tbtc (new_view sample).amount ≡ ok (from_units tbtc (must_units sample.amount))
parse_decimal-new_view_test = (parse_decimal-new_view sample refl refl).0

get_sample : mem_repository.get sample.id (store_of sample) ≡ ok sample
unfolding mem_repository get str_eq
get_sample = refl

listed : mem_repository.list_open (store_of sample) ≡ ok (sample ∷ [])
unfolding mem_repository get str_eq is_terminal
listed = refl

process_open-each_example :
    mem_repository.get
      (codes "a")
      (process_open mock_service (λ _. paid_ledger) (λ k. pos 1500) (state_of sample)).1.store
    ≡ ok (advance sample payment (pos 1500))
process_open-each_example =
    (process_open-each mock_service IsConsistent mem_laws (λ _. paid_ledger) (λ _. pos 1500)
        (sample ∷ []) (state_of sample) (consistent sample) listed (tt, tt)
        ((sample, get_sample, ground arith), tt)).1
      0 sample payment refl sees_payment

open_listed : mem_list_open (store_of sample) ≡ ok (sample ∷ [])
unfolding mem_list_open get str_eq is_terminal
open_listed = refl

sample_stored : mem_get sample.id (store_of sample) ≡ ok sample
unfolding mem_get get str_eq
sample_stored = refl

mem_list_open-exact_example : Elem sample (sample ∷ [])
mem_list_open-exact_example =
    (mem_list_open-exact (store_of sample) sample (sample ∷ []) (consistent sample) open_listed).1
      (sample_stored, still_open)

mem_list_by_merchant-exact_example :
    mem_list_by_merchant (codes "m") (pos 20) (pos 1) (store_of sample)
    ≡ ok (
        take 20
          (drop 1 (mem_list_by_merchant-exact (store_of sample) (codes "m") (consistent sample)).0))
mem_list_by_merchant-exact_example =
    (mem_list_by_merchant-exact (store_of sample) (codes "m") (consistent sample)).3 20 1
      (omega arith)

new_invoice_id_injective_test : length (new_invoice_id (replicate 16 255)) ≡ 36
new_invoice_id_injective_test =
    (new_invoice_id_injective (replicate 16 255) [] (All-replicate IsByte 16 255 (omega arith))
        tt).1
      refl
