-- ===== src/Api/Tests.antt =====
-- internal/api and internal/auth at concrete inputs: a sandbox server over the repository in memory
-- with one invoice of merchant m.
use vex_pay.Common.{◌≡◌, Bool-cases, refl, inl, inr, true, none, some, [], ◌∷◌, ok}
use vex_pay.Common.Int.{pos, ◌≤ℤ◌}
use vex_pay.Common.Text.{codes, str_eq, cut}
use vex_pay.Common.Text.Space.{trim_space}
use vex_pay.Common.Text.Prefix.{contains}
use vex_pay.Common.Text.Decimal.{set_string, value}
use vex_pay.Common.Dict.{get}
use vex_pay.Money.{tbtc, is_zero_amount, cmp}
use vex_pay.Chain.{address_per_invoice, find_adapter}
use vex_pay.Chain.Mock.{Ledger, mock_adapter, chain_id}
use vex_pay.Invoice.{Invoice, pending, is_terminal, status_eq, decide}
use vex_pay.Invoice.Memory.{MemRepository, mem_repository, mem_update}
use vex_pay.Invoice.Service.{get_invoice, advance}
use vex_pay.Webhook.Signer.{parse_int}
use vex_pay.Auth.{Principal, authenticate, add_key, find_key, new_key, generate_key}
use vex_pay.Auth.Laws.{authenticate-add_key, authenticate-generate_key}
use vex_pay.Config.{default_config}
use vex_pay.Api.{HttpRequest, Deps, Site, Moment, query_int, extract_api_key, respond, plain}
use vex_pay.Api.Invoices.{handle_invoice_item, list_limit}
use vex_pay.Api.Sandbox.{handle_sandbox_pay}
use vex_pay.Api.Serve.{serve}
use vex_pay.Api.Probes.{unset_build}
use vex_pay.Api.Handler.{Outside}
use vex_pay.Api.Privacy.{visible, SameView, handle_invoice_item-SameView}
use vex_pay.Api.Settles.{HasSandbox, IsPayable, IsPayRequest, Settled, handle_sandbox_pay-Settled}
use vex_pay.Api.Access.{Changes, handle_sandbox_pay-Changes, list_limit-clamp_size}
use vex_pay.Api.Refused.{Refused, serve-Refused}

abbrev waiting : Invoice
waiting = record {
  id = codes "a";
  merchant_id = codes "m";
  chain = chain_id;
  asset = tbtc;
  amount = record { asset = tbtc; units = some (pos 100) };
  fiat_currency = [];
  fiat_amount = [];
  rate = [];
  receive_address = codes "x";
  payment_uri = codes "u";
  strategy = address_per_invoice;
  derivation_index = 0;
  status = pending;
  received = record { asset = tbtc; units = some (pos 0) };
  confirmations = pos 0;
  required_confs = pos 1;
  tx_hash = [];
  metadata = [];
  created_at = pos 1000;
  expires_at = pos 2000;
  paid_at = none;
  updated_at = pos 1000;
}

abbrev pub server : Deps MemRepository (Unit {0}) Ledger
server = record {
  config = default_config;
  store = record { ping = λ context s. ok tt; invoices = mem_repository; close = λ s. (ok tt, s) };
  libraries = record { decode_create = λ s. none; decode_pay = λ s. none; encode_qr = λ s n. ok s };
  invoices = record {
    repo = mem_repository;
    registry = (chain_id, mock_adapter (λ w. w) (pos 1)) ∷ [];
    emitter = true;
    pricer = none;
    expiry = pos 900;
  };
  hash_key = λ s. s;
  auth = [];
  sandbox = true;
  in_ledger = λ f w. f w;
}

abbrev one_invoice : Site MemRepository (Unit {0}) Ledger
one_invoice = record {
  state = record {
    store = record { by_id = (codes "a", waiting) ∷ []; seq = []; order = codes "a" ∷ [] };
    prices = tt;
    events = [];
  };
  world = [];
}

abbrev pub no_invoice : Site MemRepository (Unit {0}) Ledger
no_invoice = record {
  state = record { store = record { by_id = []; seq = []; order = [] }; prices = tt; events = [] };
  world = [];
}

abbrev pub moment : Moment
moment = record { now = pos 5000; new_id = codes "b" }

abbrev pub pay_post : HttpRequest
pay_post = record {
  method = codes "POST";
  path = codes "/v1/sandbox/pay/a";
  authorization = [];
  api_key = [];
  query = λ k. codes "4000";
  content_length = pos 0;
  body = [];
}

abbrev item_get : HttpRequest
item_get = record pay_post { method = codes "GET"; path = codes "/v1/invoices/a" }

abbrev pub owner : Principal
owner = record { merchant_id = codes "m"; sandbox = true }

abbrev stranger : Principal
stranger = record { merchant_id = codes "n"; sandbox = true }

-- the stranger sees the same of one invoice of somebody else and of none
stranger-SameView : SameView server stranger one_invoice no_invoice
unfolding visible get_invoice mem_repository get str_eq
stranger-SameView id = elim (Bool-cases (str_eq (codes "a") id)) [
  | inl same ↦ rw same refl
  | inr other ↦ rw other refl
]

handle_invoice_item-SameView_example :
    handle_invoice_item server stranger item_get one_invoice
    ≡ handle_invoice_item server stranger item_get no_invoice
handle_invoice_item-SameView_example =
    handle_invoice_item-SameView server stranger item_get one_invoice no_invoice stranger-SameView

pub has_sandbox : HasSandbox server (λ w. w) (pos 1)
unfolding find_adapter get str_eq
has_sandbox = record { known = refl; writes = λ f w. refl }

waiting-IsPayable : IsPayable server (λ w. w) (pos 1) owner waiting one_invoice
unfolding mem_repository get str_eq is_terminal is_zero_amount
waiting-IsPayable = record {
  stored = refl;
  own = refl;
  sandbox_key = refl;
  on_sandbox = refl;
  waits = refl;
  nonzero = refl;
}

pay_post-IsPayRequest : IsPayRequest server (λ w. w) (pos 1) waiting pay_post
unfolding contains cut
pay_post-IsPayRequest = record {
  method = refl;
  path = refl;
  no_body = refl;
  named = refl;
  one_part = refl;
}

handle_sandbox_pay-Settled_test :
    Settled server
      (λ w. w)
      (pos 1)
      waiting
      one_invoice
      (handle_sandbox_pay server moment owner pay_post one_invoice)
unfolding mem_repository mem_update get str_eq advance status_eq decide is_zero_amount cmp
handle_sandbox_pay-Settled_test =
    handle_sandbox_pay-Settled server (λ w. w) (pos 1) moment owner pay_post waiting one_invoice
      has_sandbox waiting-IsPayable pay_post-IsPayRequest refl

handle_sandbox_pay-Changes_example :
    Changes server moment owner pay_post one_invoice
      (handle_sandbox_pay server moment owner pay_post one_invoice)
handle_sandbox_pay-Changes_example =
    handle_sandbox_pay-Changes server moment owner pay_post one_invoice

serve-Refused_test : Refused server pay_post one_invoice (serve server moment pay_post one_invoice)
unfolding authenticate extract_api_key find_key trim_space
serve-Refused_test = serve-Refused server moment pay_post one_invoice refl

list_limit-clamp_size_test : list_limit pay_post ≤ℤ pos 100
list_limit-clamp_size_test = (list_limit-clamp_size pay_post (pos 4000)).0.1

list_limit_test : list_limit pay_post ≡ pos 100
unfolding list_limit query_int parse_int set_string value
list_limit_test = refl

authenticate-add_key_test :
    authenticate (λ s. s) (add_key (new_key (λ s. s) (codes "k") (codes "m") true) []) (codes "k")
    ≡ some owner
unfolding trim_space str_eq new_key
authenticate-add_key_test =
    authenticate-add_key (λ s. s) [] (new_key (λ s. s) (codes "k") (codes "m") true) (codes "k")

authenticate-generate_key_test :
    authenticate
      (λ s. s)
      (add_key (generate_key (λ s. s) (1 ∷ []) (codes "m") true).1 [])
      (generate_key (λ s. s) (1 ∷ []) (codes "m") true).0
    ≡ some owner
authenticate-generate_key_test = authenticate-generate_key (λ s. s) [] (1 ∷ []) (codes "m") true

abbrev outside : Outside MemRepository (Unit {0}) Ledger
outside = record {
  build = unset_build;
  dashboard_file = λ file. respond 200 plain;
  ping_context = none;
  took = pos 1000;
  late = λ svc. svc;
}
