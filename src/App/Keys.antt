-- ===== src/App/Keys.antt =====
-- internal/app/app.go: which keys the gateway that `Build` makes accepts, and the simulator in it.
use vex_pay.Common.{◌≡◌, Bool, true, false, not, ◌&&◌, none, some, [], if◌then◌else◌, arith}
use vex_pay.Common.Text.{Str, str_eq, is_empty}
use vex_pay.Common.Text.Space.{trim_space}
use vex_pay.Auth.{new_key, find_key, authenticate, generate_key}
use vex_pay.Auth.Laws.{authenticate-add_key}
use vex_pay.Config.{Config, is_production}
use vex_pay.App.{AppLibraries, default_merchant, live_keys, build_keys}

module _ {X : Type 0} (lib : AppLibraries X) (cfg : Config) (random : Str) where
  abbrev accepted : Str → Str → Bool
  accepted configured raw =
      not (is_empty configured)
      && not (is_empty (trim_space raw))
      && str_eq (lib.hash_key configured) (lib.hash_key (trim_space raw))

  live_keys-live :
      (raw : Str)
      → authenticate lib.hash_key (live_keys lib cfg) raw ≡ (
          if accepted cfg.api_key raw
          then some (record { merchant_id = default_merchant; sandbox = false })
          else none)
  unfolding live_keys authenticate find_key new_key
  live_keys-live raw = ground (
    arith,
    authenticate-add_key lib.hash_key [] (new_key lib.hash_key cfg.api_key default_merchant false)
        raw,
  )

  -- the sandbox key: the configured one, or else outside of production the one that is made up
  abbrev pub sandbox_key : Str
  sandbox_key =
      if not (is_empty cfg.sandbox_api_key)
      then cfg.sandbox_api_key
      else if not (is_production cfg)
      then (generate_key lib.hash_key random default_merchant true).0
      else []

  -- The gateway accepts the sandbox key, if the sandbox is enabled, as a sandbox key, and otherwise
  -- the configured key as a live key, both by their hashes and each only if it is not empty; no
  -- other text is accepted. Without a configured sandbox key there is none in production.
  pub build_keys-authenticate :
      (raw : Str)
      → authenticate lib.hash_key (build_keys lib cfg random).0 raw ≡ (
          if cfg.enable_sandbox && accepted sandbox_key raw
          then some (record { merchant_id = default_merchant; sandbox = true })
          else if accepted cfg.api_key raw
          then some (record { merchant_id = default_merchant; sandbox = false })
          else none)
  unfolding build_keys new_key generate_key
  build_keys-authenticate raw = ground (
    arith,
    live_keys-live raw,
    authenticate-add_key lib.hash_key (live_keys lib cfg)
        (new_key lib.hash_key cfg.sandbox_api_key default_merchant true) raw,
    authenticate-add_key lib.hash_key (live_keys lib cfg)
        (generate_key lib.hash_key random default_merchant true).1 raw,
  )
