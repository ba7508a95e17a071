-- ===== src/Config.antt =====
-- internal/config/config.go. `env` gives the value of a VEXPAY_ variable, empty if it is not set;
-- `time.ParseDuration` is a parameter.
pub mod Valid
pub mod Tests
use vex_pay.Common.{
  Bool, true, false, ◌&&◌, ◌||◌, Option, none, some, [], ◌∷◌, ◌*◌, ◌^◌, ◌==◌, if◌then◌else◌,
  is_some, Result, ok, err, fail_if, ◌>>=◌, ◌>>◌, invalid_duration, invalid_confirmations,
  invalid_config,
}
use vex_pay.Common.Int.{ℤ, pos, leb_ℤ, ltb_ℤ}
use vex_pay.Common.Text.{Str, codes, str_eq, is_empty}
use vex_pay.Common.Text.Prefix.{cut_prefix}
use vex_pay.Webhook.Signer.{parse_int}

pub record Config : Type 0 where
  pub env : Str
  pub addr : Str
  pub public_url : Str
  pub database_url : Str
  pub invoice_expiry : ℤ
  pub request_timeout : ℤ
  pub admin_session_secret : Str
  pub watch_interval : ℤ
  pub enable_dashboard : Bool
  pub enable_sandbox : Bool
  pub sandbox_confirmations : ℤ
  pub enable_bitcoin : Bool
  pub btc_explorer_url : Str
  pub btc_testnet_explorer_url : Str
  pub coin_gecko_url : Str
  pub rate_cache_ttl : ℤ
  pub webhook_url : Str
  pub webhook_secret : Str
  pub api_key : Str
  pub sandbox_api_key : Str

-- `Default`
abbrev pub default_config : Config
default_config = record {
  env = codes "development";
  addr = codes ":8080";
  public_url = codes "http://localhost:8080";
  database_url = codes "sqlite:vexpay.db";
  invoice_expiry = pos (900 * 10 ^ 9);
  request_timeout = pos (30 * 10 ^ 9);
  admin_session_secret = [];
  watch_interval = pos (15 * 10 ^ 9);
  enable_dashboard = true;
  enable_sandbox = true;
  sandbox_confirmations = pos 1;
  enable_bitcoin = true;
  btc_explorer_url = codes "https://mempool.space";
  btc_testnet_explorer_url = codes "https://mempool.space/testnet";
  coin_gecko_url = [];
  rate_cache_ttl = pos (60 * 10 ^ 9);
  webhook_url = [];
  webhook_secret = [];
  api_key = [];
  sandbox_api_key = [];
}

-- `strings.TrimRight(s, "/")`
unfoldable pub trim_slashes : Str → Str
trim_slashes [] = []
trim_slashes (c ∷ s) =
    let rest = trim_slashes s in if is_empty rest && c == b'/' then [] else c ∷ rest

-- `strconv.ParseBool`
unfoldable pub parse_bool : Str → Option Bool
parse_bool s =
    if str_eq s (codes "1")
      || str_eq s (codes "t")
      || str_eq s (codes "T")
      || str_eq s (codes "TRUE")
      || str_eq s (codes "true")
      || str_eq s (codes "True")
    then some true
    else if str_eq s (codes "0")
        || str_eq s (codes "f")
        || str_eq s (codes "F")
        || str_eq s (codes "FALSE")
        || str_eq s (codes "false")
        || str_eq s (codes "False")
    then some false
    else none

unfoldable pub is_production : Config → Bool
is_production c = str_eq c.env (codes "production")

unfoldable pub validate : Config → Result (Unit {0})
validate c = do
  fail_if (is_empty c.addr) invalid_config
  fail_if (is_empty c.public_url) invalid_config
  fail_if (leb_ℤ c.invoice_expiry (pos 0)) invalid_config
  fail_if (is_production c && is_empty c.admin_session_secret) invalid_config
  fail_if (is_production c && is_some (cut_prefix (codes "http://") c.public_url)) invalid_config

module _ (parse_duration : Str → Option ℤ) (env : Str → Str) where
  text_env : Str → Str → Str
  text_env key default = let v = env key in if is_empty v then default else v

  url_env : Str → Str → Str
  url_env key default = let v = env key in if is_empty v then default else trim_slashes v

  bool_env : Str → Bool → Bool
  bool_env key default =
      let v = env key in
      if is_empty v then default else elim (parse_bool v) [ none ↦ default | some b ↦ b ]

  duration_env : Str → ℤ → Result ℤ
  duration_env key default =
      let v = env key in
      if is_empty v
      then ok default
      else elim (parse_duration v) [ none ↦ err invalid_duration | some d ↦ ok d ]

  unfoldable pub confirmations_env : Str → ℤ → Result ℤ
  confirmations_env key default =
      let v = env key in
      if is_empty v then ok default else elim (parse_int v) [
        | none ↦ err invalid_confirmations
        | some n ↦ if ltb_ℤ n (pos 1) then err invalid_confirmations else ok n
      ]

  -- the variables over the defaults; the five that can fail come as arguments
  pub overlay : ℤ → ℤ → ℤ → ℤ → ℤ → Config
  overlay expiry timeout interval confirmations ttl =
      let d = default_config in
      record {
        env = text_env (codes "ENV") d.env;
        addr = text_env (codes "ADDR") d.addr;
        public_url = url_env (codes "PUBLIC_URL") d.public_url;
        database_url = text_env (codes "DATABASE_URL") d.database_url;
        invoice_expiry = expiry;
        request_timeout = timeout;
        admin_session_secret = text_env (codes "ADMIN_SESSION_SECRET") d.admin_session_secret;
        watch_interval = interval;
        enable_dashboard = bool_env (codes "ENABLE_DASHBOARD") d.enable_dashboard;
        enable_sandbox = bool_env (codes "ENABLE_SANDBOX") d.enable_sandbox;
        sandbox_confirmations = confirmations;
        enable_bitcoin = bool_env (codes "ENABLE_BITCOIN") d.enable_bitcoin;
        btc_explorer_url = url_env (codes "BTC_EXPLORER_URL") d.btc_explorer_url;
        btc_testnet_explorer_url =
            url_env (codes "BTC_TESTNET_EXPLORER_URL") d.btc_testnet_explorer_url;
        coin_gecko_url = trim_slashes (env (codes "COINGECKO_URL"));
        rate_cache_ttl = ttl;
        webhook_url = env (codes "WEBHOOK_URL");
        webhook_secret = env (codes "WEBHOOK_SECRET");
        api_key = env (codes "API_KEY");
        sandbox_api_key = env (codes "SANDBOX_API_KEY");
      }

  -- the end of `Load`
  pub validated : Config → Result Config
  validated c = do validate c; ok c

  unfoldable pub load : Result Config
  unfolding text_env url_env bool_env duration_env overlay validated
  load = do
    let d = default_config
    expiry ← duration_env (codes "INVOICE_EXPIRY") d.invoice_expiry
    timeout ← duration_env (codes "REQUEST_TIMEOUT") d.request_timeout
    interval ← duration_env (codes "WATCH_INTERVAL") d.watch_interval
    confirmations ← confirmations_env (codes "SANDBOX_CONFIRMATIONS") d.sandbox_confirmations
    ttl ← duration_env (codes "RATE_CACHE_TTL") d.rate_cache_ttl
    validated (overlay expiry timeout interval confirmations ttl)
