-- ===== src/Api/Serve.antt =====
-- internal/api: `authed` of auth_middleware.go and the routes of server.go below /v1/. The request
-- multiplexer is a library: an exact path, or the longest registered prefix that ends in a slash.
use vex_pay.Common.{◌&&◌, none, some, if◌then◌else◌, is_some}
use vex_pay.Common.Text.{codes, str_eq, is_empty}
use vex_pay.Common.Text.Prefix.{cut_prefix}
use vex_pay.Auth.{Principal, authenticate}
use vex_pay.Api.{HttpRequest, Response, write_error, Deps, Site, Moment, extract_api_key}
use vex_pay.Api.Invoices.{handle_invoices_collection, handle_invoice_item}
use vex_pay.Api.Sandbox.{handle_sandbox_pay}

module _ {S P W : Type 0} (deps : Deps S P W) where
  unfoldable pub authed :
      (Principal → HttpRequest → Site S P W → Response × Site S P W)
      → HttpRequest
      → Site S P W
      → Response × Site S P W
  authed next r site =
      let raw = extract_api_key r in
      if is_empty raw
      then (write_error 401 (codes "missing API key"), site)
      else elim (authenticate deps.hash_key deps.auth raw) [
        | none ↦ (write_error 401 (codes "invalid API key"), site)
        | some principal ↦ next principal r site
      ]

  -- the routes below /v1/; those of the probes and of the dashboard stand in front of them in `route`
  unfoldable pub serve : Moment → HttpRequest → Site S P W → Response × Site S P W
  serve moment r site =
      if str_eq r.path (codes "/v1/invoices")
      then authed (handle_invoices_collection deps moment) r site
      else if is_some (cut_prefix (codes "/v1/invoices/") r.path)
      then authed (λ p q s. (handle_invoice_item deps p q s, s)) r site
      else if deps.sandbox && is_some (cut_prefix (codes "/v1/sandbox/pay/") r.path)
      then authed (handle_sandbox_pay deps moment) r site
      else (write_error 404 (codes "404 page not found"), site)
