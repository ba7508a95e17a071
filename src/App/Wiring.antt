-- ===== src/App/Wiring.antt =====
-- internal/app/app.go: when `Build` fails, and the chains of the gateway that it makes.
use vex_pay.Common.{
  ◌≡◌, refl, ap, sym, ◌↔◌, inl, inr, true, [], ◌∷◌, if◌then◌else◌, arith, Bool-cases, Error, ok,
  err, no_adapter, Result-cases, ok-injective,
}
use vex_pay.Common.Text.{Str, str_eq}
use vex_pay.Common.Dict.{get, put}
use vex_pay.Chain.{Registry, register, find_adapter}
use vex_pay.Chain.Mock.{mock_adapter, chain_id}
use vex_pay.Chain.Bitcoin.{mainnet, testnet, btc_adapter}
use vex_pay.Config.{Config}
use vex_pay.Store.Open.{Opened, Store, in_memory, in_sqlite, open_store}
use vex_pay.Watcher.{new_watcher}
use vex_pay.App.{
  World, AppLibraries, App, Built, bitcoin_adapter, sandbox_adapter, register_sandbox,
  register_bitcoin, build_registry, build_service, build_keys, build_dispatcher, build_deps,
  build_on, build_opened, build,
}

module _ {X : Type 0} (lib : AppLibraries X) where
  -- the registry of a configuration
  abbrev pub wanted : Config → Registry (World X)
  wanted cfg =
      let coins =
        if cfg.enable_bitcoin
        then (mainnet.id, bitcoin_adapter lib mainnet cfg.btc_explorer_url)
          ∷ (testnet.id, bitcoin_adapter lib testnet cfg.btc_testnet_explorer_url)
          ∷ []
        else [] in
      if cfg.enable_sandbox then (chain_id, sandbox_adapter lib cfg) ∷ coins else coins

  build_registry-wanted : (cfg : Config) → build_registry lib cfg ≡ ok (wanted cfg)
  unfolding build_registry register_sandbox register_bitcoin register get put str_eq bitcoin_adapter
      sandbox_adapter mock_adapter btc_adapter
  build_registry-wanted cfg = elim (Bool-cases cfg.enable_sandbox) [
    | inl with ↦ elim (Bool-cases cfg.enable_bitcoin) [
      | inl coins ↦ rw (with, coins) refl
      | inr none_of ↦ rw (with, none_of) refl
    ]
    | inr without ↦ elim (Bool-cases cfg.enable_bitcoin) [
      | inl coins ↦ rw (without, coins) refl
      | inr none_of ↦ rw (without, none_of) refl
    ]
  ]

  -- the gateway of a configuration
  abbrev pub built : {S : Type 0} → Config → Store S → Str → App X S
  built cfg store random = record {
    config = cfg;
    store = store;
    registry = wanted cfg;
    invoices = build_service lib cfg store random (wanted cfg);
    auth = (build_keys lib cfg random).0;
    sandbox = cfg.enable_sandbox;
    dispatcher = build_dispatcher lib cfg;
    watcher = new_watcher cfg.watch_interval;
    handler = build_deps lib cfg store random (wanted cfg);
    seeded_sandbox_key = (build_keys lib cfg random).1;
  }

  pub build_on-built :
      {S : Type 0} (cfg : Config) (store : Store S) (random : Str)
      → build_on lib cfg store random ≡ ok (built cfg store random)
  unfolding build_on
  build_on-built cfg store random = rw (build_registry-wanted cfg) refl

  build_opened-fine :
      (cfg : Config) (random : Str) (opened : Opened)
      → (app : Built X) × (build_opened lib cfg random opened ≡ ok app)
  unfolding build_opened build_on
  build_opened-fine cfg random (in_memory state) = rw (build_registry-wanted cfg) (_, refl)
  build_opened-fine cfg random (in_sqlite db) = rw (build_registry-wanted cfg) (_, refl)

  -- `Build` fails exactly where `store.Open` fails, with the same error: no chain is registered twice.
  pub build-open_store :
      (cfg : Config) (random : Str) (e : Error)
      → (build lib cfg random ≡ err e) ↔ (open_store lib.connect cfg.database_url ≡ err e)
  unfolding build
  build-open_store cfg random e = elim (Result-cases (open_store lib.connect cfg.database_url)) [
    | inl (e', fails) ↦ rw fails (ground arith)
    | inr (opened, opens) ↦
        let (app, fine) = build_opened-fine cfg random opened in rw (opens, fine) (ground arith)
  ]

  module _ {S : Type 0} (cfg : Config) (store : Store S) (random : Str) (app : App X S)
      (made : build_on lib cfg store random ≡ ok app) where
    build_on-registry : app.registry ≡ wanted cfg
    unfolding build_on
    build_on-registry =
        ap (λ a. a.registry) (sym (ok-injective (rw (build_registry-wanted cfg) at made)))

    pub build_on-handler : app.handler ≡ build_deps lib cfg store random (wanted cfg)
    unfolding build_on
    build_on-handler =
        ap (λ a. a.handler) (sym (ok-injective (rw (build_registry-wanted cfg) at made)))

    pub wanted-sandbox :
        cfg.enable_sandbox ≡ true
        → find_adapter (wanted cfg) chain_id
          ≡ ok (mock_adapter (λ w. w.ledger) cfg.sandbox_confirmations)
    unfolding find_adapter get str_eq sandbox_adapter
    wanted-sandbox on = rw on refl

    -- The gateway knows the sandbox chain exactly if the sandbox is enabled, and the two Bitcoin
    -- chains, each over the explorer configured for it, exactly if Bitcoin is.
    pub build_on-chains :
        (find_adapter app.registry chain_id
          ≡ (if cfg.enable_sandbox then ok (sandbox_adapter lib cfg) else err no_adapter))
        × (find_adapter app.registry mainnet.id ≡ (
            if cfg.enable_bitcoin
            then ok (bitcoin_adapter lib mainnet cfg.btc_explorer_url)
            else err no_adapter))
        × (find_adapter app.registry testnet.id ≡ (
            if cfg.enable_bitcoin
            then ok (bitcoin_adapter lib testnet cfg.btc_testnet_explorer_url)
            else err no_adapter))
    unfolding find_adapter get str_eq
    build_on-chains = rw build_on-registry (elim (Bool-cases cfg.enable_sandbox) [
      | inl with ↦ elim (Bool-cases cfg.enable_bitcoin) [
        | inl coins ↦ rw (with, coins) (refl, refl, refl)
        | inr none_of ↦ rw (with, none_of) (refl, refl, refl)
      ]
      | inr without ↦ elim (Bool-cases cfg.enable_bitcoin) [
        | inl coins ↦ rw (without, coins) (refl, refl, refl)
        | inr none_of ↦ rw (without, none_of) (refl, refl, refl)
      ]
    ])
