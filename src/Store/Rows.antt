-- ===== src/Store/Rows.antt =====
-- internal/store/sqlite.go: the row of an invoice, and `scanInvoice`. The JSON encoder, and how
-- `time` writes and reads a time, are parameters.
use vex_pay.Common.{
  ℕ, ◌-◌, ◌^◌, ◌*◌, ◌||◌, Option, none, some, List, [], ◌∷◌, if◌then◌else◌, Result, ok, ◌>>=◌,
  or_err, invalid_stored_amount,
}
use vex_pay.Common.Int.{ℤ, negsuc}
use vex_pay.Common.Text.{Str, codes, str_eq, is_empty}
use vex_pay.Common.Text.Decimal.{int_string, set_string}
use vex_pay.Common.Dict.{Dict}
use vex_pay.Money.{Asset, Amount, from_units, must_units}
use vex_pay.Chain.{ReceiveStrategy}
use vex_pay.Invoice.{Invoice, Status, Time}

-- the libraries: `Format(time.RFC3339Nano)` in UTC and `time.Parse`, `json.Marshal` and
-- `json.Unmarshal` for a map of texts
pub record Codec : Type 0 where
  pub time_text : Time → Str
  pub time_parse : Str → Option Time
  pub json_marshal : Dict Str → Str
  pub json_unmarshal : Str → Option (Dict Str)

-- the columns of the table `invoices`. A strategy and a status stand for their texts.
pub record Row : Type 0 where
  pub id : Str
  pub merchant_id : Str
  pub chain : Str
  pub asset_symbol : Str
  pub asset_decimals : ℕ
  pub amount_units : Str
  pub fiat_currency : Str
  pub fiat_amount : Str
  pub rate : Str
  pub receive_address : Str
  pub payment_uri : Str
  pub strategy : ReceiveStrategy
  pub derivation_index : ℕ
  pub status : Status
  pub received_units : Str
  pub confirmations : ℤ
  pub required_confs : ℤ
  pub tx_hash : Str
  pub metadata : Str
  pub created_at : Str
  pub expires_at : Str
  pub paid_at : Str
  pub updated_at : Str

-- `time.Time{}`, the start of year 1
abbrev pub zero_time : Time
zero_time = negsuc (62135596800 * 10 ^ 9 - 1)

unfoldable pub parse_amount : Asset → Str → Result Amount
parse_amount asset units = do
  n ← or_err (set_string units) invalid_stored_amount
  ok (from_units asset n)

module _ (codec : Codec) where
  unfoldable pub marshal_metadata : Dict Str → Str
  marshal_metadata [] = codes "{}"
  marshal_metadata (e ∷ m) = codec.json_marshal (e ∷ m)

  -- a nil map and an empty one read alike
  unfoldable pub unmarshal_metadata : Str → Dict Str
  unmarshal_metadata s =
      if is_empty s || str_eq s (codes "{}")
      then []
      else elim (codec.json_unmarshal s) [ none ↦ [] | some m ↦ m ]

  unfoldable pub format_time_ptr : Option Time → Str
  format_time_ptr none = []
  format_time_ptr (some t) = codec.time_text t

  unfoldable pub parse_time : Str → Time
  parse_time s = elim (codec.time_parse s) [ none ↦ zero_time | some t ↦ t ]

  -- the values of `INSERT`
  unfoldable pub row_of : Invoice → Row
  row_of inv = record {
    id = inv.id;
    merchant_id = inv.merchant_id;
    chain = inv.chain;
    asset_symbol = inv.asset.symbol;
    asset_decimals = inv.asset.decimals;
    amount_units = int_string (must_units inv.amount);
    fiat_currency = inv.fiat_currency;
    fiat_amount = inv.fiat_amount;
    rate = inv.rate;
    receive_address = inv.receive_address;
    payment_uri = inv.payment_uri;
    strategy = inv.strategy;
    derivation_index = inv.derivation_index;
    status = inv.status;
    received_units = int_string (must_units inv.received);
    confirmations = inv.confirmations;
    required_confs = inv.required_confs;
    tx_hash = inv.tx_hash;
    metadata = marshal_metadata inv.metadata;
    created_at = codec.time_text inv.created_at;
    expires_at = codec.time_text inv.expires_at;
    paid_at = format_time_ptr inv.paid_at;
    updated_at = codec.time_text inv.updated_at;
  }

  -- the six columns of `UPDATE`
  unfoldable pub set_columns : Invoice → Row → Row
  set_columns inv row = record row {
    status = inv.status;
    received_units = int_string (must_units inv.received);
    confirmations = inv.confirmations;
    tx_hash = inv.tx_hash;
    paid_at = format_time_ptr inv.paid_at;
    updated_at = codec.time_text inv.updated_at;
  }

  -- the end of `scanInvoice`, from the amounts on
  unfoldable pub invoice_of : Row → Asset → Amount → Amount → Invoice
  invoice_of row asset amount received = record {
    id = row.id;
    merchant_id = row.merchant_id;
    chain = row.chain;
    asset = asset;
    amount = amount;
    fiat_currency = row.fiat_currency;
    fiat_amount = row.fiat_amount;
    rate = row.rate;
    receive_address = row.receive_address;
    payment_uri = row.payment_uri;
    strategy = row.strategy;
    derivation_index = row.derivation_index;
    status = row.status;
    received = received;
    confirmations = row.confirmations;
    required_confs = row.required_confs;
    tx_hash = row.tx_hash;
    metadata = unmarshal_metadata row.metadata;
    created_at = parse_time row.created_at;
    expires_at = parse_time row.expires_at;
    paid_at = if is_empty row.paid_at then none else some (parse_time row.paid_at);
    updated_at = parse_time row.updated_at;
  }

  unfoldable pub scan_invoice : Row → Result Invoice
  scan_invoice row =
      let asset : Asset = record { symbol = row.asset_symbol; decimals = row.asset_decimals } in
      (do
        amount ← parse_amount asset row.amount_units
        received ← parse_amount asset row.received_units
        ok (invoice_of row asset amount received))

  -- `scanInvoices`: the first row that cannot be read ends the loop
  unfoldable pub scan_invoices : List Row → Result (List Invoice)
  scan_invoices [] = ok []
  scan_invoices (row ∷ rows) = do inv ← scan_invoice row; invs ← scan_invoices rows; ok (inv ∷ invs)
