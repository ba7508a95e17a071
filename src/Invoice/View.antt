-- ===== src/Invoice/View.antt =====
-- internal/invoice/view.go: the JSON view of an invoice. Amounts are decimal strings.
use vex_pay.Common.{◌≡◌, subst, Option, ok}
use vex_pay.Common.Int.{ℤ}
use vex_pay.Common.Text.{Str}
use vex_pay.Common.Dict.{Dict}
use vex_pay.Money.{Amount, from_units, must_units, string, parse_decimal}
use vex_pay.Money.RoundTrip.{parse_decimal-string}
use vex_pay.Invoice.{Invoice, Time, status_text}

pub record View : Type 0 where
  pub id : Str
  pub merchant_id : Str
  pub chain : Str
  pub asset : Str
  pub amount : Str
  pub status : Str
  pub received : Str
  pub confirmations : ℤ
  pub required_confirmations : ℤ
  pub receive_address : Str
  pub payment_uri : Str
  pub tx_hash : Str
  pub fiat_currency : Str
  pub fiat_amount : Str
  pub rate : Str
  pub metadata : Dict Str
  pub created_at : Time
  pub expires_at : Time
  pub paid_at : Option Time
  pub updated_at : Time

unfoldable pub new_view : Invoice → View
new_view inv = record {
  id = inv.id;
  merchant_id = inv.merchant_id;
  chain = inv.chain;
  asset = inv.asset.symbol;
  amount = string inv.amount;
  status = status_text inv.status;
  received = string inv.received;
  confirmations = inv.confirmations;
  required_confirmations = inv.required_confs;
  receive_address = inv.receive_address;
  payment_uri = inv.payment_uri;
  tx_hash = inv.tx_hash;
  fiat_currency = inv.fiat_currency;
  fiat_amount = inv.fiat_amount;
  rate = inv.rate;
  metadata = inv.metadata;
  created_at = inv.created_at;
  expires_at = inv.expires_at;
  paid_at = inv.paid_at;
  updated_at = inv.updated_at;
}

-- A client that parses the two amounts of a view by the invoice's asset gets the invoice's amounts
-- back with no precision lost, where they are amounts of that asset.
pub parse_decimal-new_view :
    (inv : Invoice)
    → inv.amount.asset ≡ inv.asset
    → inv.received.asset ≡ inv.asset
    → (parse_decimal inv.asset (new_view inv).amount
        ≡ ok (from_units inv.asset (must_units inv.amount)))
      × (parse_decimal inv.asset (new_view inv).received
          ≡ ok (from_units inv.asset (must_units inv.received)))
unfolding new_view
parse_decimal-new_view inv e f = (read inv.amount e, read inv.received f)
  where
    read :
        (a : Amount)
        → a.asset ≡ inv.asset
        → parse_decimal inv.asset (string a) ≡ ok (from_units inv.asset (must_units a))
    read a h =
        subst (λ x. parse_decimal x (string a) ≡ ok (from_units x (must_units a))) h
          (parse_decimal-string a)
