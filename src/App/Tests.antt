-- ===== src/App/Tests.antt =====
-- internal/app at concrete inputs: a gateway over the store in memory, with one waiting invoice.
use vex_pay.Common.{
  ◌*◌, ◌^◌, ◌≡◌, refl, ap, true, false, none, some, [], ◌∷◌, ok, err, not_found, missing_scheme,
}
use vex_pay.Common.Int.{pos}
use vex_pay.Common.Text.{codes, str_eq, cut}
use vex_pay.Common.Text.Space.{trim_space}
use vex_pay.Money.{tbtc, is_zero_amount, cmp}
use vex_pay.Common.Dict.{get, put}
use vex_pay.Common.Text.Prefix.{contains, cut_prefix}
use vex_pay.Chain.{address_per_invoice, find_adapter}
use vex_pay.Chain.Bitcoin.{mainnet}
use vex_pay.Chain.Mock.{chain_id}
use vex_pay.Auth.{Principal, authenticate, find_key, add_key, new_key}
use vex_pay.Config.{Config, default_config}
use vex_pay.Invoice.{Invoice, pending, is_terminal, status_eq, decide}
use vex_pay.Invoice.Service.{advance, new_service}
use vex_pay.Invoice.Memory.{mem_repository, mem_get, mem_update}
use vex_pay.Store.Sqlite.{new_database}
use vex_pay.Store.Open.{MemStore, memory_store, mem_invoices, open_store}
use vex_pay.Api.{HttpRequest, Site, Moment, respond, write_error, plain, extract_api_key}
use vex_pay.Api.Settles.{IsPayable, IsPayRequest, Settled}
use vex_pay.Api.Handler.{Outside, handler, handler-route, handler-unchanged}
use vex_pay.Api.Probes.{unset_build}
use vex_pay.App.{
  World, Prices, AppLibraries, App, bitcoin_adapter, live_keys, build_keys, build_deps, build,
  default_merchant,
}
use vex_pay.App.Wiring.{built, build_on-built, build-open_store, build_on-chains}
use vex_pay.App.Keys.{build_keys-authenticate}
use vex_pay.App.Payments.{build_on-Settled}

-- a network that does not answer
abbrev pub offline : AppLibraries (Unit {0})
offline = record {
  http = λ w url. err not_found;
  deliver = λ request w. (err not_found, w);
  esplora = record { address = λ s. none; height = λ s. none; txs = λ s. none };
  gecko = record {
    texts = record { lower_unicode = λ s. s; rat_set_string = λ s. none };
    decode = λ s. none;
    query_escape = λ s. s;
  };
  derive = λ net xpub index. ok xpub;
  hash_key = λ s. s;
  connect = λ path. ok new_database;
  codec = record {
    time_text = λ t. [];
    time_parse = λ s. none;
    json_marshal = λ m. [];
    json_unmarshal = λ s. none;
  };
  api = record { decode_create = λ s. none; decode_pay = λ s. none; encode_qr = λ s n. ok s };
}

abbrev sandbox_config : Config
sandbox_config = record default_config {
  database_url = codes "memory:";
  sandbox_api_key = codes "test";
  api_key = codes "live";
}

abbrev sandbox_app : App (Unit {0}) MemStore
sandbox_app = built offline sandbox_config memory_store []

abbrev waiting : Invoice
waiting = record {
  id = codes "a";
  merchant_id = default_merchant;
  chain = chain_id;
  asset = tbtc;
  amount = record { asset = tbtc; units = some (pos 100) };
  fiat_currency = [];
  fiat_amount = [];
  rate = [];
  receive_address = codes "x";
  payment_uri = codes "u";
  strategy = address_per_invoice;
  derivation_index = 0;
  status = pending;
  received = record { asset = tbtc; units = some (pos 0) };
  confirmations = pos 0;
  required_confs = pos 1;
  tx_hash = [];
  metadata = [];
  created_at = pos 1000;
  expires_at = pos 2000;
  paid_at = none;
  updated_at = pos 1000;
}

abbrev one_invoice : Site MemStore (Prices (Unit {0})) (World (Unit {0}))
one_invoice = record {
  state = record {
    store = record {
      closed = false;
      repo = record { by_id = (codes "a", waiting) ∷ []; seq = []; order = codes "a" ∷ [] };
    };
    prices = record { cache = []; network = tt; now = pos 5000; later = pos 5000 };
    events = [];
  };
  world = record { ledger = []; network = tt };
}

abbrev moment : Moment
moment = record { now = pos 5000; new_id = codes "b" }

abbrev outside : Outside MemStore (Prices (Unit {0})) (World (Unit {0}))
outside = record {
  build = unset_build;
  dashboard_file = λ file. respond 200 plain;
  ping_context = none;
  took = pos 1000;
  late = λ svc. svc;
}

abbrev pay_post : HttpRequest
pay_post = record {
  method = codes "POST";
  path = codes "/v1/sandbox/pay/a";
  authorization = codes "Bearer test";
  api_key = [];
  query = λ k. [];
  content_length = pos 0;
  body = [];
}

abbrev no_key_post : HttpRequest
no_key_post = record pay_post { authorization = [] }

abbrev merchant : Principal
merchant = record { merchant_id = default_merchant; sandbox = true }

waiting-IsPayable :
    IsPayable sandbox_app.handler (λ w. w.ledger) (pos 1) merchant waiting one_invoice
unfolding mem_invoices mem_repository mem_get get str_eq is_terminal is_zero_amount build_deps
    new_service memory_store
waiting-IsPayable = record {
  stored = refl;
  own = refl;
  sandbox_key = refl;
  on_sandbox = refl;
  waits = refl;
  nonzero = refl;
}

pay_post-IsPayRequest : IsPayRequest sandbox_app.handler (λ w. w.ledger) (pos 1) waiting pay_post
unfolding contains cut
pay_post-IsPayRequest = record {
  method = refl;
  path = refl;
  no_body = refl;
  named = refl;
  one_part = refl;
}

build_on-Settled_example :
    Settled sandbox_app.handler
      (λ w. w.ledger)
      (pos 1)
      waiting
      one_invoice
      (handler sandbox_app.handler outside moment pay_post one_invoice)
unfolding build_deps build_keys live_keys new_service memory_store mem_invoices mem_repository
    mem_update get put str_eq advance status_eq decide is_zero_amount cmp authenticate
    extract_api_key find_key trim_space cut_prefix add_key new_key
build_on-Settled_example =
    build_on-Settled offline sandbox_config memory_store [] sandbox_app
      (build_on-built offline sandbox_config memory_store []) refl outside moment merchant pay_post
      waiting one_invoice refl refl waiting-IsPayable pay_post-IsPayRequest refl

build_on-chains_test :
    find_adapter sandbox_app.registry (codes "bitcoin")
    ≡ ok (bitcoin_adapter offline mainnet (codes "https://mempool.space"))
build_on-chains_test =
    (build_on-chains offline sandbox_config memory_store [] sandbox_app
      (build_on-built offline sandbox_config memory_store [])).1

build-open_store_test :
    build offline (record sandbox_config { database_url = codes "vexpay" }) [] ≡ err missing_scheme
unfolding open_store cut
build-open_store_test =
    (build-open_store offline (record sandbox_config { database_url = codes "vexpay" }) []
        missing_scheme).1
      refl

build_keys-authenticate_example :
    authenticate (λ s. s) (build_keys offline sandbox_config []).0 (codes "live")
    ≡ some (record { merchant_id = default_merchant; sandbox = false })
unfolding trim_space str_eq
build_keys-authenticate_example = build_keys-authenticate offline sandbox_config [] (codes "live")

-- the request takes a second longer than the limit
abbrev slow : Outside MemStore (Prices (Unit {0})) (World (Unit {0}))
slow = record outside { took = pos (31 * 10 ^ 9) }

handler-route_test :
    (handler sandbox_app.handler slow moment pay_post one_invoice).0
    ≡ write_error 503 (codes "request timeout")
unfolding build_deps
handler-route_test =
    ap (λ out. out.0) (handler-route sandbox_app.handler slow moment pay_post one_invoice)

handler-unchanged_test :
    (handler sandbox_app.handler outside moment no_key_post one_invoice).1 ≡ one_invoice
unfolding authenticate extract_api_key trim_space build_deps
handler-unchanged_test =
    handler-unchanged sandbox_app.handler outside moment no_key_post one_invoice refl
