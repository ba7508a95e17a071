-- ===== src/Api/Invoices.antt =====
-- internal/api/invoices.go: the handlers of invoices.
use vex_pay.Common.{not, none, some, List, [], ◌∷◌, if◌then◌else◌, ok, err}
use vex_pay.Common.Int.{ℤ, pos, ltb_ℤ}
use vex_pay.Common.Text.{Str, codes, str_eq, is_empty}
use vex_pay.Common.Text.Split.{split}
use vex_pay.Common.Text.Prefix.{trim_prefix}
use vex_pay.Money.{Amount, lookup, parse_decimal, no_amount}
use vex_pay.Auth.{Principal}
use vex_pay.Invoice.{Invoice}
use vex_pay.Invoice.View.{View, new_view}
use vex_pay.Invoice.Service.{CreateParams, create, get_invoice, list_invoices}
use vex_pay.Api.{
  HttpRequest, failure, view, views, png, Response, respond, write_error, method_not_allowed,
  CreateInvoiceRequest, Deps, Site, Moment, query_int, qr_png, is_not_found,
}

-- the explicit amount of a request, or the response that refuses it
pub data Asked : Type 0 where
  refused : Response → Asked
  asked : Amount → Asked

unfoldable pub asked_amount : CreateInvoiceRequest → Asked
asked_amount req =
    if is_empty req.amount
    then asked no_amount
    else if is_empty req.asset
    then refused (write_error 400 (codes "asset is required when amount is set"))
    else elim (lookup req.asset) [
      | err e ↦ refused (respond 400 (failure e))
      | ok asset ↦ elim (parse_decimal asset req.amount) [
        | err e ↦ refused (respond 400 (failure e))
        | ok amount ↦ asked amount
      ]
    ]

unfoldable pub create_params : Principal → CreateInvoiceRequest → Amount → CreateParams
create_params p req amount = record {
  merchant_id = p.merchant_id;
  chain = req.chain;
  wallet = req.wallet;
  amount = amount;
  fiat_currency = req.fiat_currency;
  fiat_amount = req.fiat_amount;
  rate = req.rate;
  metadata = req.metadata;
}

abbrev pub new_views : List Invoice → List View
new_views [] = []
new_views (inv ∷ invs) = new_view inv ∷ new_views invs

-- `limit` is at most 100
unfoldable pub list_limit : HttpRequest → ℤ
list_limit r =
    let limit = query_int r (codes "limit") (pos 20) in
    if ltb_ℤ (pos 100) limit then pos 100 else limit

-- the invoice of the caller under an id, or the response that refuses it
pub data Found : Type 0 where
  missing : Response → Found
  found : Invoice → Found

module _ {S P W : Type 0} (deps : Deps S P W) where
  unfoldable pub create_invoice :
      Moment → Principal → HttpRequest → Site S P W → Response × Site S P W
  create_invoice moment p r site = elim (deps.libraries.decode_create r.body) [
    | none ↦ (write_error 400 (codes "invalid JSON body"), site)
    | some req ↦
        if is_empty req.chain
        then (write_error 400 (codes "chain is required"), site)
        else elim (asked_amount req) [
          | refused response ↦ (response, site)
          | asked amount ↦
              let (made, state) =
                create deps.invoices moment.now moment.new_id (create_params p req amount)
                  site.state in
              elim made [
                | err e ↦ (respond 400 (failure e), record site { state = state })
                | ok inv ↦ (respond 201 (view (new_view inv)), record site { state = state })
              ]
        ]
  ]

  unfoldable pub list_merchant : Principal → HttpRequest → Site S P W → Response
  list_merchant p r site =
      let offset = query_int r (codes "offset") (pos 0) in
      elim (list_invoices deps.invoices p.merchant_id (list_limit r) offset site.state) [
        | err e ↦ write_error 500 (codes "failed to list invoices")
        | ok invs ↦ respond 200 (views (new_views invs))
      ]

  unfoldable pub handle_invoices_collection :
      Moment → Principal → HttpRequest → Site S P W → Response × Site S P W
  handle_invoices_collection moment p r site =
      if str_eq r.method (codes "POST")
      then create_invoice moment p r site
      else if str_eq r.method (codes "GET")
      then (list_merchant p r site, site)
      else (method_not_allowed (codes "GET, POST"), site)

  -- `Get` and the checks behind it
  unfoldable pub find_invoice : Principal → Str → Site S P W → Found
  find_invoice p id site = elim (get_invoice deps.invoices id site.state) [
    | err e ↦
        if is_not_found e
        then missing (write_error 404 (codes "invoice not found"))
        else missing (write_error 500 (codes "failed to load invoice"))
    | ok inv ↦
        if not (str_eq inv.merchant_id p.merchant_id)
        then missing (write_error 404 (codes "invoice not found"))
        else found inv
  ]

  unfoldable pub write_invoice_qr : HttpRequest → Invoice → Response
  write_invoice_qr r inv =
      elim (qr_png deps.libraries.encode_qr inv.payment_uri
        (query_int r (codes "size") (pos 256))) [
          | err e ↦ write_error 500 (codes "failed to render QR code")
          | ok image ↦ respond 200 (png image)
        ]

  -- the parts of the path behind the id
  unfoldable pub show_invoice : HttpRequest → List Str → Invoice → Response
  show_invoice r [] inv = respond 200 (view (new_view inv))
  show_invoice r (part ∷ []) inv =
      if str_eq part (codes "qr")
      then write_invoice_qr r inv
      else write_error 404 (codes "not found")
  show_invoice r (_ ∷ _ ∷ _) inv = write_error 404 (codes "not found")

  -- `strings.Split` always has a first part
  unfoldable pub item_at : Principal → HttpRequest → Site S P W → List Str → Response
  item_at p r site [] = write_error 404 (codes "not found")
  item_at p r site (id ∷ parts) =
      if is_empty id then write_error 404 (codes "not found") else elim (find_invoice p id site) [
        | missing response ↦ response
        | found inv ↦ show_invoice r parts inv
      ]

  unfoldable pub handle_invoice_item : Principal → HttpRequest → Site S P W → Response
  handle_invoice_item p r site =
      if not (str_eq r.method (codes "GET"))
      then method_not_allowed (codes "GET")
      else item_at p r site (split b'/' (trim_prefix (codes "/v1/invoices/") r.path))
