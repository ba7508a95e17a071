-- ===== src/Api/Sandbox.antt =====
-- internal/api/sandbox.go: the payment simulator.
use vex_pay.Common.{not, ◌||◌, Option, none, some, [], ◌++◌, if◌then◌else◌, Result, ok, err}
use vex_pay.Common.Int.{ℤ, is_zero}
use vex_pay.Common.Text.{Str, codes, str_eq, is_empty}
use vex_pay.Common.Text.Prefix.{trim_prefix, contains}
use vex_pay.Money.{Amount, parse_decimal}
use vex_pay.Chain.Mock.{chain_id, pay}
use vex_pay.Auth.{Principal}
use vex_pay.Invoice.{Invoice}
use vex_pay.Invoice.View.{new_view}
use vex_pay.Invoice.Service.{sync}
use vex_pay.Api.{
  HttpRequest, view, failure, Response, respond, write_error, method_not_allowed, SandboxPayRequest,
  Deps, Site, Moment,
}
use vex_pay.Api.Invoices.{missing, found, find_invoice}

-- `sandboxPayRequest{}`
abbrev pub no_request : SandboxPayRequest
no_request = record { amount = []; confirmations = none; tx_hash = [] }

-- the amount to pay: the invoice's unless the request names one
unfoldable pub paid_amount : Invoice → SandboxPayRequest → Result Amount
paid_amount inv req =
    if is_empty req.amount then ok inv.amount else parse_decimal inv.asset req.amount

unfoldable pub paid_confirmations : Invoice → SandboxPayRequest → ℤ
paid_confirmations inv req = elim req.confirmations [ none ↦ inv.required_confs | some n ↦ n ]

unfoldable pub paid_hash : Invoice → SandboxPayRequest → Str
paid_hash inv req = if is_empty req.tx_hash then codes "sbxtx_" ++ inv.id else req.tx_hash

module _ {S P W : Type 0} (deps : Deps S P W) where
  -- `Sandbox.Pay` and then `Sync`
  unfoldable pub pay_and_sync :
      Moment → Invoice → SandboxPayRequest → Amount → Site S P W → Response × Site S P W
  pay_and_sync moment inv req amount site =
      let world =
        deps.in_ledger
          (pay inv.receive_address amount (paid_confirmations inv req) (paid_hash inv req))
          site.world in
      let synced = sync deps.invoices world moment.now inv site.state in
      let site' : Site S P W = record { state = synced.state; world = world } in
      elim synced.result [
        | err e ↦ (write_error 500 (codes "failed to sync invoice"), site')
        | ok _ ↦ (respond 200 (view (new_view synced.invoice)), site')
      ]

  unfoldable pub simulate :
      Moment → Invoice → SandboxPayRequest → Site S P W → Response × Site S P W
  simulate moment inv req site = elim (paid_amount inv req) [
    | err e ↦ (respond 400 (failure e), site)
    | ok amount ↦ pay_and_sync moment inv req amount site
  ]

  -- the body is optional
  unfoldable pub pay_request : HttpRequest → Option SandboxPayRequest
  pay_request r =
      if is_zero r.content_length then some no_request else deps.libraries.decode_pay r.body

  unfoldable pub pay_invoice : Moment → HttpRequest → Invoice → Site S P W → Response × Site S P W
  pay_invoice moment r inv site =
      if not (str_eq inv.chain chain_id)
      then (write_error 400 (codes "invoice is not on the sandbox chain"), site)
      else elim (pay_request r) [
        | none ↦ (write_error 400 (codes "invalid JSON body"), site)
        | some req ↦ simulate moment inv req site
      ]

  unfoldable pub pay_at :
      Moment → Principal → HttpRequest → Str → Site S P W → Response × Site S P W
  pay_at moment p r id site =
      if is_empty id || contains b'/' id
      then (write_error 404 (codes "not found"), site)
      else elim (find_invoice deps p id site) [
        | missing response ↦ (response, site)
        | found inv ↦ pay_invoice moment r inv site
      ]

  unfoldable pub handle_sandbox_pay :
      Moment → Principal → HttpRequest → Site S P W → Response × Site S P W
  handle_sandbox_pay moment p r site =
      if not (str_eq r.method (codes "POST"))
      then (method_not_allowed (codes "POST"), site)
      else if not p.sandbox
      then (write_error 403 (codes "sandbox endpoints require a sandbox API key"), site)
      else pay_at moment p r (trim_prefix (codes "/v1/sandbox/pay/") r.path) site
