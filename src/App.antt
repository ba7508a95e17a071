-- ===== src/App.antt =====
-- internal/app/app.go: the gateway from its parts. The libraries at its edges are parameters: HTTP, JSON, the
-- derivation of addresses, the hash of keys and the database driver.
pub mod Wiring
pub mod Keys
pub mod Payments
pub mod Tests
use vex_pay.Common.{
  ℕ, Bool, true, false, not, ◌&&◌, Option, none, some, List, [], ◌∷◌, if◌then◌else◌, Result, ok,
  err, ◌>>=◌,
}
use vex_pay.Common.Int.{ℤ, pos, leb_ℤ}
use vex_pay.Common.Text.{Str, codes, is_empty}
use vex_pay.Common.Http.{HttpGet}
use vex_pay.Common.Act.{Act}
use vex_pay.Money.{Asset}
use vex_pay.Chain.{Adapter, Registry, register}
use vex_pay.Chain.Mock.{Ledger, mock_adapter}
use vex_pay.Chain.Bitcoin.{Network, mainnet, testnet, btc_adapter, address_status}
use vex_pay.Chain.Bitcoin.Mempool.{EsploraJson, mempool_backend}
use vex_pay.Config.{Config, is_production}
use vex_pay.Auth.{KeyStore, new_store, add_key, new_key, generate_key}
use vex_pay.Invoice.{Time}
use vex_pay.Invoice.Service.{Service, Pricer, new_service}
use vex_pay.Rates.{Cache, Oracle, new_oracle, crypto_amount}
use vex_pay.Rates.CoinGecko.{GeckoLibraries, gecko_price}
use vex_pay.Webhook.Dispatcher.{Endpoint, Request, Dispatcher, new_dispatcher}
use vex_pay.Store.Rows.{Codec}
use vex_pay.Store.Sqlite.{Database}
use vex_pay.Store.Open.{
  Store, MemStore, memory_store, sqlite_store, Opened, in_memory, in_sqlite, open_store,
}
use vex_pay.Api.{Libraries, Deps}
use vex_pay.Watcher.{Watcher, new_watcher}

-- what adapters observe: the sandbox ledger, and the services on the network
pub record World (X : Type 0) : Type 0 where
  pub ledger : Ledger
  pub network : X

-- what the pricer works on: its cache, and the services and the clock as a request finds them
pub record Prices (X : Type 0) : Type 0 where
  pub cache : Cache
  pub network : X
  pub now : Time
  pub later : Time

pub record AppLibraries (X : Type 0) : Type 0 where
  pub http : HttpGet X
  pub deliver : Request → X → Result ℕ × X
  pub esplora : EsploraJson
  pub gecko : GeckoLibraries
  pub derive : Network → Str → ℕ → Result Str
  pub hash_key : Str → Str
  pub connect : Str → Result Database
  pub codec : Codec
  pub api : Libraries

-- `DefaultMerchantID`
abbrev pub default_merchant : Str
default_merchant = codes "default"

pub record App (X S : Type 0) : Type 0 where
  pub config : Config
  pub store : Store S
  pub registry : Registry (World X)
  pub invoices : Service S (Prices X) (World X)
  pub auth : KeyStore
  pub sandbox : Bool
  pub dispatcher : Dispatcher X
  pub watcher : Watcher
  pub handler : Deps S (Prices X) (World X)
  pub seeded_sandbox_key : Str

-- an app over the store that its configuration opened, and the store's state
pub data Built (X : Type 0) : Type 0 where
  over_memory : MemStore → App X MemStore → Built X
  over_sqlite : Database → App X Database → Built X

module _ {X : Type 0} (lib : AppLibraries X) where
  unfoldable pub bitcoin_adapter : Network → Str → Adapter (World X)
  bitcoin_adapter net url =
      btc_adapter net (lib.derive net)
        (λ w. address_status (mempool_backend lib.http lib.esplora url) w.network) (pos 0)

  unfoldable pub sandbox_adapter : Config → Adapter (World X)
  sandbox_adapter cfg = mock_adapter (λ w. w.ledger) cfg.sandbox_confirmations

  unfoldable pub register_sandbox : Config → Registry (World X) → Result (Registry (World X))
  register_sandbox cfg r = if cfg.enable_sandbox then register (sandbox_adapter cfg) r else ok r

  unfoldable pub register_bitcoin : Config → Registry (World X) → Result (Registry (World X))
  register_bitcoin cfg r = if not cfg.enable_bitcoin then ok r else (do
    r ← register (bitcoin_adapter mainnet cfg.btc_explorer_url) r
    register (bitcoin_adapter testnet cfg.btc_testnet_explorer_url) r)

  unfoldable pub build_registry : Config → Result (Registry (World X))
  build_registry cfg = do r ← register_sandbox cfg []; register_bitcoin cfg r

  -- the resolver: one endpoint for every merchant
  unfoldable pub resolve : Config → Str → Option Endpoint
  resolve cfg _ =
      if is_empty cfg.webhook_url
      then none
      else some (record { url = cfg.webhook_url; secret = cfg.webhook_secret })

  unfoldable pub build_dispatcher : Config → Dispatcher X
  unfolding resolve
  build_dispatcher cfg = new_dispatcher lib.deliver (resolve cfg) (pos 0) none

  unfoldable pub build_oracle : Config → Oracle X
  build_oracle cfg =
      new_oracle cfg.rate_cache_ttl (gecko_price lib.gecko lib.http cfg.coin_gecko_url ∷ [])

  -- the oracle as the service's pricer
  unfoldable pub build_pricer : Config → Pricer (Prices X)
  unfolding build_oracle
  build_pricer cfg = record {
    crypto_amount = λ asset currency text prices.
        let (answer, cache) =
          crypto_amount lib.gecko.texts (build_oracle cfg) prices.network prices.now prices.later
            asset currency text prices.cache in
        (answer, record prices { cache = cache });
  }

  -- the live key
  unfoldable pub live_keys : Config → KeyStore
  live_keys cfg =
      if is_empty cfg.api_key
      then new_store
      else add_key (new_key lib.hash_key cfg.api_key default_merchant false) new_store

  -- the keys, and the sandbox key that was made up if none is configured
  unfoldable pub build_keys : Config → Str → KeyStore × Str
  build_keys cfg random =
      if not cfg.enable_sandbox
      then (live_keys cfg, [])
      else if not (is_empty cfg.sandbox_api_key)
      then (
        add_key (new_key lib.hash_key cfg.sandbox_api_key default_merchant true) (live_keys cfg),
        [],
      )
      else if not (is_production cfg)
      then (let (raw, key) = generate_key lib.hash_key random default_merchant true in
          (add_key key (live_keys cfg), raw))
      else (live_keys cfg, [])

  module _ {S : Type 0} (cfg : Config) (store : Store S) (random : Str) where
    unfoldable pub build_service : Registry (World X) → Service S (Prices X) (World X)
    unfolding build_pricer
    build_service registry =
        new_service store.invoices registry true (some (build_pricer cfg)) cfg.invoice_expiry

    unfoldable pub build_deps : Registry (World X) → Deps S (Prices X) (World X)
    unfolding build_service build_keys
    build_deps registry = record {
      config = cfg;
      store = store;
      libraries = lib.api;
      invoices = build_service registry;
      hash_key = lib.hash_key;
      auth = (build_keys cfg random).0;
      sandbox = cfg.enable_sandbox;
      in_ledger = λ f w. record w { ledger = f w.ledger };
    }

    -- `Build` behind `store.Open`
    unfoldable pub build_on : Result (App X S)
    unfolding build_registry build_deps build_service build_dispatcher build_keys
    build_on = do
      registry ← build_registry cfg
      ok (record {
        config = cfg;
        store = store;
        registry = registry;
        invoices = build_service registry;
        auth = (build_keys cfg random).0;
        sandbox = cfg.enable_sandbox;
        dispatcher = build_dispatcher cfg;
        watcher = new_watcher cfg.watch_interval;
        handler = build_deps registry;
        seeded_sandbox_key = (build_keys cfg random).1;
      })

  unfoldable pub build_opened : Config → Str → Opened → Result (Built X)
  build_opened cfg random (in_memory state) = do
    app ← build_on cfg memory_store random
    ok (over_memory state app)
  build_opened cfg random (in_sqlite db) = do
    app ← build_on cfg (sqlite_store lib.codec) random
    ok (over_sqlite db app)

  -- `Build`; `random` becomes the key that is made up
  unfoldable pub build : Config → Str → Result (Built X)
  build cfg random = do
    opened ← open_store lib.connect cfg.database_url
    build_opened cfg random opened
