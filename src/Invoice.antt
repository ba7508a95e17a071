-- ===== src/Invoice.antt =====
-- internal/invoice: the data of an invoice, and the decision on its next status.
pub mod Repository
pub mod Memory
pub mod Service
pub mod View
pub mod Ids
pub mod Lifecycle
pub mod Tests
pub mod ServiceTests
use vex_pay.Common.{
  ℕ, Bool, true, false, ◌&&◌, ◌||◌, not, Option, none, some, List, [], if◌then◌else◌, Error, Result,
}
use vex_pay.Common.Int.{ℤ, Sign, less, same, more, ltb_ℤ}
use vex_pay.Common.Text.{Str, codes, str_eq, is_empty}
use vex_pay.Common.Dict.{Dict}
use vex_pay.Money.{Asset, Amount, cmp, is_zero_amount}
use vex_pay.Chain.{ReceiveStrategy, Observation}

-- nanoseconds since the Unix epoch
abbrev pub Time : Type 0
Time = ℤ

pub data Status : Type 0 where
  pending underpaid confirming paid overpaid expired : Status

-- the string constants
unfoldable pub status_text : Status → Str
status_text pending = codes "pending"
status_text underpaid = codes "underpaid"
status_text confirming = codes "confirming"
status_text paid = codes "paid"
status_text overpaid = codes "overpaid"
status_text expired = codes "expired"

-- `a == b` on statuses, which are strings
unfoldable pub status_eq : Status → Status → Bool
unfolding status_text str_eq
status_eq a b = str_eq (status_text a) (status_text b)

unfoldable pub is_terminal : Status → Bool
is_terminal paid = true
is_terminal overpaid = true
is_terminal expired = true
is_terminal _ = false

unfoldable pub is_settled : Status → Bool
unfolding status_eq
is_settled s = status_eq s paid || status_eq s overpaid

pub record Invoice : Type 0 where
  pub id : Str
  pub merchant_id : Str
  pub chain : Str
  pub asset : Asset
  pub amount : Amount
  pub fiat_currency : Str
  pub fiat_amount : Str
  pub rate : Str
  pub receive_address : Str
  pub payment_uri : Str
  pub strategy : ReceiveStrategy
  pub derivation_index : ℕ
  pub status : Status
  pub received : Amount
  pub confirmations : ℤ
  pub required_confs : ℤ
  pub tx_hash : Str
  pub metadata : Dict Str
  pub created_at : Time
  pub expires_at : Time
  pub paid_at : Option Time
  pub updated_at : Time

pub record StatusChange : Type 0 where
  pub invoice : Invoice
  pub previous : Status

-- the switch of `decide`, on the comparison of what was received with what was requested
settle_status : Sign → Bool → Bool → Status
settle_status less late deep = if late then expired else underpaid
settle_status more late deep = if deep then overpaid else confirming
settle_status same late deep = if deep then paid else confirming

unfoldable pub decide : Invoice → Observation → Time → Status
unfolding settle_status
decide inv obs now =
    let late = ltb_ℤ inv.expires_at now in
    if not obs.seen || is_zero_amount obs.received
    then (if late then expired else pending)
    else settle_status (cmp obs.received inv.amount) late
        (not (ltb_ℤ obs.confirmations inv.required_confs))
