-- ===== src/Api.antt =====
-- internal/api (server.go, auth_middleware.go) and internal/qr: requests, responses, the query and the
-- check of keys in front of the handlers. JSON, HTTP and the drawing of QR codes are parameters; the
-- texts of responses that quote an error are not modelled, the error is.
pub mod Invoices
pub mod Sandbox
pub mod Serve
pub mod Probes
pub mod Handler
pub mod Guarded
pub mod Privacy
pub mod Settles
pub mod Checkout
pub mod Access
pub mod Refused
pub mod Tests
pub mod CheckoutTests
use vex_pay.Common.{
  ℕ, Bool, true, false, Option, none, some, List, [], ◌∷◌, if◌then◌else◌, Result, ok, err, Error,
  not_found, empty_content,
}
use vex_pay.Common.Int.{ℤ, pos, ltb_ℤ, leb_ℤ}
use vex_pay.Common.Text.{Str, codes, str_eq, is_empty}
use vex_pay.Common.Text.Space.{trim_space}
use vex_pay.Common.Text.Prefix.{cut_prefix}
use vex_pay.Common.Dict.{Dict}
use vex_pay.Chain.{WalletConfig}
use vex_pay.Chain.Mock.{Ledger}
use vex_pay.Config.{Config}
use vex_pay.Store.Open.{Store}
use vex_pay.Auth.{KeyStore}
use vex_pay.Invoice.{Time}
use vex_pay.Invoice.View.{View}
use vex_pay.Invoice.Service.{Service, State}
use vex_pay.Webhook.Signer.{parse_int}

pub record HttpRequest : Type 0 where
  pub method : Str
  pub path : Str
  pub authorization : Str
  pub api_key : Str
  -- a missing key is empty
  pub query : Str → Str
  pub content_length : ℤ
  pub body : Str

pub data Body : Type 0 where
  -- `{"error": ...}`, a fixed text or one that quotes an error
  message : Str → Body
  failure : Error → Body
  view : View → Body
  views : List View → Body
  png : Str → Body
  -- an object of texts
  object : Dict Str → Body
  redirect : Str → Body
  plain : Body

pub record Response : Type 0 where
  pub status : ℕ
  pub allow : Str
  pub body : Body

abbrev pub respond : ℕ → Body → Response
respond status body = record { status = status; allow = []; body = body }

abbrev pub write_error : ℕ → Str → Response
write_error status text = respond status (message text)

abbrev pub method_not_allowed : Str → Response
method_not_allowed allow = record {
  status = 405;
  allow = allow;
  body = message (codes "method not allowed");
}

pub record CreateInvoiceRequest : Type 0 where
  pub chain : Str
  pub asset : Str
  pub amount : Str
  pub wallet : WalletConfig
  pub fiat_currency : Str
  pub fiat_amount : Str
  pub rate : Str
  pub metadata : Dict Str

pub record SandboxPayRequest : Type 0 where
  pub amount : Str
  pub confirmations : Option ℤ
  pub tx_hash : Str

-- the libraries: `none` for a body that the decoder refuses
pub record Libraries : Type 0 where
  pub decode_create : Str → Option CreateInvoiceRequest
  pub decode_pay : Str → Option SandboxPayRequest
  pub encode_qr : Str → ℤ → Result Str

-- `W` is the world that adapters observe, and `in_ledger` writes the sandbox ledger in it
pub record Deps (S P W : Type 0) : Type 0 where
  pub config : Config
  pub store : Store S
  pub libraries : Libraries
  pub invoices : Service S P W
  pub hash_key : Str → Str
  pub auth : KeyStore
  pub sandbox : Bool
  pub in_ledger : (Ledger → Ledger) → W → W

-- what requests change
pub record Site (S P W : Type 0) : Type 0 where
  pub state : State S P
  pub world : W

-- the clock and the random id of a request
pub record Moment : Type 0 where
  pub now : Time
  pub new_id : Str

-- `queryInt`
unfoldable pub query_int : HttpRequest → Str → ℤ → ℤ
query_int r key default =
    let v = r.query key in
    if is_empty v
    then default
    else elim (parse_int v) [ none ↦ default | some n ↦ if ltb_ℤ n (pos 0) then default else n ]

-- the size in `qr.PNG`
unfoldable pub clamp_size : ℤ → ℤ
clamp_size size =
    if leb_ℤ size (pos 0)
    then pos 256
    else if ltb_ℤ size (pos 64)
    then pos 64
    else if ltb_ℤ (pos 1024) size
    then pos 1024
    else size

unfoldable pub qr_png : (Str → ℤ → Result Str) → Str → ℤ → Result Str
qr_png encode content size =
    if is_empty content then err empty_content else encode content (clamp_size size)

-- `extractAPIKey`
unfoldable pub extract_api_key : HttpRequest → Str
extract_api_key r =
    let fallback = trim_space r.api_key in
    if is_empty r.authorization
    then fallback
    else elim (cut_prefix (codes "Bearer ") r.authorization) [
      | none ↦ fallback
      | some after ↦ trim_space after
    ]

-- `errors.Is(err, invoice.ErrNotFound)`
unfoldable pub is_not_found : Error → Bool
is_not_found not_found = true
is_not_found _ = false
