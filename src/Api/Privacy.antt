-- ===== src/Api/Privacy.antt =====
-- internal/api/invoices.go: what a merchant can see of other merchants' invoices.
use vex_pay.Common.{
  ◌≡◌, refl, ap, ◌∙◌, sym, inl, inr, List, [], ◌∷◌, if◌then◌else◌, Bool-cases, Result-cases, Result,
  ok, err, not_found,
}
use vex_pay.Common.Text.{Str, codes, str_eq}
use vex_pay.Common.Text.Split.{split}
use vex_pay.Common.Text.Prefix.{trim_prefix}
use vex_pay.Auth.{Principal}
use vex_pay.Invoice.{Invoice}
use vex_pay.Invoice.Service.{get_invoice}
use vex_pay.Api.{HttpRequest, write_error, is_not_found, Deps, Site}
use vex_pay.Api.Invoices.{Found, missing, found, find_invoice, item_at, handle_invoice_item}

-- what `Get` answers, with the invoices of others taken for missing ones
unfoldable pub visible : Principal → Result Invoice → Result Invoice
visible p (err e) = err e
visible p (ok inv) = if str_eq inv.merchant_id p.merchant_id then ok inv else err not_found

reveal : Result Invoice → Found
reveal (err e) =
    if is_not_found e
    then missing (write_error 404 (codes "invoice not found"))
    else missing (write_error 500 (codes "failed to load invoice"))
reveal (ok inv) = found inv

module _ {S P W : Type 0} (deps : Deps S P W) (p : Principal) where
  find_invoice-visible :
      (id : Str) (site : Site S P W)
      → find_invoice deps p id site ≡ reveal (visible p (get_invoice deps.invoices id site.state))
  unfolding find_invoice reveal visible is_not_found
  find_invoice-visible id site = elim (Result-cases (get_invoice deps.invoices id site.state)) [
    | inl (e, failed) ↦ rw (failed, find_invoice) refl
    | inr (inv, there) ↦ elim (Bool-cases (str_eq inv.merchant_id p.merchant_id)) [
      | inl own ↦ rw (there, own, find_invoice) refl
      | inr other ↦ rw (there, other, find_invoice) refl
    ]
  ]

  -- the two sites hold the same invoices of the caller under the same ids, and fail alike
  abbrev pub SameView : Site S P W → Site S P W → Type 0
  SameView site site' =
      (id : Str)
      → visible p (get_invoice deps.invoices id site.state)
        ≡ visible p (get_invoice deps.invoices id site'.state)

  item_at-SameView :
      (r : HttpRequest) (site site' : Site S P W) (parts : List Str)
      → SameView site site'
      → item_at deps p r site parts ≡ item_at deps p r site' parts
  unfolding item_at
  item_at-SameView r site site' [] same = refl
  item_at-SameView r site site' (id ∷ parts) same =
      let alike =
        find_invoice-visible id site ∙ ap reveal (same id) ∙ sym (find_invoice-visible id site') in
      rw alike refl

  -- An invoice of another merchant cannot be told from one that does not exist: what the endpoint of
  -- single invoices answers, pictures and refusals included, depends only on the caller's own
  -- invoices.
  pub handle_invoice_item-SameView :
      (r : HttpRequest) (site site' : Site S P W)
      → SameView site site'
      → handle_invoice_item deps p r site ≡ handle_invoice_item deps p r site'
  unfolding handle_invoice_item
  handle_invoice_item-SameView r site site' same =
      rw
        (item_at-SameView r site site' (split b'/' (trim_prefix (codes "/v1/invoices/") r.path))
          same)
        refl
