-- ===== src/Api/CheckoutTests.antt =====
-- internal/api at concrete inputs: an invoice that is created and then paid in the simulator.
use vex_pay.Common.{◌≡◌, refl, some, [], ok}
use vex_pay.Common.Int.{pos}
use vex_pay.Common.Text.{codes, str_eq, cut}
use vex_pay.Common.Text.Prefix.{contains}
use vex_pay.Common.Dict.{get}
use vex_pay.Money.{tbtc, is_zero_amount, cmp, asset_eq, zero_amount}
use vex_pay.Chain.{address_per_invoice, find_adapter}
use vex_pay.Chain.Mock.{mock_adapter, mock_address, mock_derive, chain_id}
use vex_pay.Invoice.{Invoice, paid}
use vex_pay.Invoice.Repository.{SameTerms}
use vex_pay.Invoice.Memory.Laws.{IsConsistent, mem_laws}
use vex_pay.Invoice.Memory.{mem_repository, mem_get, mem_create, mem_next_derivation_index}
use vex_pay.Invoice.Service.{CreateParams, create, issue, resolve_amount, new_invoice}
use vex_pay.Api.Checkout.{create-Settled}
use vex_pay.Api.Sandbox.{handle_sandbox_pay}
use vex_pay.Api.Settles.{IsPayRequest}
use vex_pay.Api.Tests.{server, no_invoice, moment, pay_post, owner, has_sandbox}

abbrev new_params : CreateParams
new_params = record {
  merchant_id = codes "m";
  chain = chain_id;
  wallet = record { xpub = []; address = []; view_key = []; primary_address = [] };
  amount = record { asset = tbtc; units = some (pos 100) };
  fiat_currency = [];
  fiat_amount = [];
  rate = [];
  metadata = [];
}

abbrev issued : Invoice
issued =
    new_invoice (mock_adapter (λ w. w) (pos 1))
      (record {
        address = mock_address 0;
        exact_amount = new_params.amount;
        strategy = address_per_invoice;
        derivation_index = 0;
      })
      new_params new_params.amount [] (codes "a") (pos 4000) (pos 900)

issued_created :
    (create server.invoices (pos 4000) (codes "a") new_params no_invoice.state).0 ≡ ok issued
unfolding create find_adapter get str_eq resolve_amount is_zero_amount asset_eq cmp zero_amount
    issue mem_repository mem_next_derivation_index mem_create mock_adapter mock_derive
issued_created = refl

issued-IsPayRequest : IsPayRequest server (λ w. w) (pos 1) issued pay_post
unfolding contains cut new_invoice
issued-IsPayRequest = record {
  method = refl;
  path = refl;
  no_body = refl;
  named = refl;
  one_part = refl;
}

create-Settled_example :
    (inv' : Invoice) × (mem_repository.get issued.id
        (handle_sandbox_pay server moment owner pay_post (record {
          state = (create server.invoices (pos 4000) (codes "a") new_params no_invoice.state).1;
          world = [];
        })).1.state.store
      ≡ ok inv')
    × SameTerms issued inv'
    × (inv'.status ≡ paid)
    × (inv'.received ≡ issued.amount)
unfolding mem_repository mem_get get new_invoice is_zero_amount
create-Settled_example =
    create-Settled server (λ w. w) (pos 1) IsConsistent mem_laws (pos 4000) (codes "a") new_params
      no_invoice.state [] issued moment owner pay_post has_sandbox
      (record { indexed = tt; ordered = refl }) refl issued_created refl refl refl refl
      issued-IsPayRequest
