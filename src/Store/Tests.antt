-- ===== src/Store/Tests.antt =====
-- internal/store at concrete inputs: times as seconds and nanoseconds, and metadata of one key.
use vex_pay.Common.{
  arith, some-injective, true, ◌↔◌, subst, some-injective, inl, inr, ◌+◌, ◌*◌, ◌^◌, ◌≡◌, refl,
  false, none, some, List, [], ◌∷◌, arith, ok,
}
use vex_pay.Common.Int.{pos}
use vex_pay.Common.Text.{codes, str_eq}
use vex_pay.Common.Text.Decimal.{digits}
use vex_pay.Common.Dict.{get, put}
use vex_pay.Money.{tbtc, from_units, must_units}
use vex_pay.Chain.{address_per_invoice}
use vex_pay.Invoice.{Invoice, pending, paid, is_terminal}
use vex_pay.Invoice.Repository.{SameTerms}
use vex_pay.Invoice.Memory.{
  new_mem_repository, mem_repository, mem_create, mem_update, mem_next_derivation_index,
  mem_list_by_merchant,
}
use vex_pay.Store.Rows.{row_of, scan_invoice}
use vex_pay.Store.RoundTrip.{IsPrintable, IsStorable, scan_invoice-row_of}
use vex_pay.Store.Sqlite.{
  Database, sql_get, sql_list_open, new_database, sql_create, sql_list_by_merchant, sql_repository,
}
use vex_pay.Store.Calls.{Call, create_call, get_call, update_call, index_call, call, run}
use vex_pay.Store.Agrees.{run-same}
use vex_pay.Store.Table.{IsTable}
use vex_pay.Store.Invariant.{grown_by, run-IsTable}
use vex_pay.Store.Listing.{sql_list_open-exact}
use vex_pay.Invoice.Memory.Listing.{Elem}
use vex_pay.Store.Order.{sql_list_by_merchant_older_first}
use vex_pay.Store.Sample.{sample_codec, order_seven, IsOrder, sample_laws, sample_times}

abbrev pub order_invoice : Invoice
order_invoice = record {
  id = codes "inv_1";
  merchant_id = codes "m";
  chain = codes "sandbox";
  asset = tbtc;
  amount = record { asset = tbtc; units = some (pos 100) };
  fiat_currency = [];
  fiat_amount = [];
  rate = [];
  receive_address = codes "x";
  payment_uri = codes "u";
  strategy = address_per_invoice;
  derivation_index = 0;
  status = pending;
  received = record { asset = tbtc; units = some (pos 0) };
  confirmations = pos 0;
  required_confs = pos 1;
  tx_hash = [];
  metadata = order_seven;
  created_at = pos (7 * 10 ^ 9);
  expires_at = pos (60 * 10 ^ 9);
  paid_at = none;
  updated_at = pos (7 * 10 ^ 9);
}

abbrev later_invoice : Invoice
later_invoice = record order_invoice {
  id = codes "inv_2";
  created_at = pos (7 * 10 ^ 9 + 5 * 10 ^ 8);
  metadata = [];
}

abbrev paid_invoice : Invoice
paid_invoice = record order_invoice {
  status = paid;
  received = record { asset = tbtc; units = some (pos 100) };
  confirmations = pos 1;
  paid_at = some (pos (8 * 10 ^ 9));
}

pub order_invoice-IsStorable : IsStorable IsOrder order_invoice
unfolding from_units must_units
order_invoice-IsStorable = record {
  amount = refl;
  received = refl;
  metadata = inr refl;
  created = (ground arith, ground arith);
  expires = (ground arith, ground arith);
  updated = (ground arith, ground arith);
  paid = λ t h. absurd (cc h);
}

later_invoice-IsStorable : IsStorable IsOrder later_invoice
unfolding from_units must_units
later_invoice-IsStorable = record {
  amount = refl;
  received = refl;
  metadata = inl refl;
  created = (ground arith, ground arith);
  expires = (ground arith, ground arith);
  updated = (ground arith, ground arith);
  paid = λ t h. absurd (cc h);
}

paid_invoice-IsStorable : IsStorable IsOrder paid_invoice
unfolding from_units must_units
paid_invoice-IsStorable = record {
  amount = refl;
  received = refl;
  metadata = inr refl;
  created = (ground arith, ground arith);
  expires = (ground arith, ground arith);
  updated = (ground arith, ground arith);
  paid = λ t h. subst IsPrintable (some-injective h) (ground arith, ground arith);
}

order_terms : (old : Invoice) → some order_invoice ≡ some old → SameTerms old paid_invoice
order_terms old there =
    subst (λ inv. SameTerms inv paid_invoice) (some-injective there) (ground arith)

scan_invoice-row_of_example :
    scan_invoice sample_codec (row_of sample_codec paid_invoice) ≡ ok paid_invoice
scan_invoice-row_of_example =
    scan_invoice-row_of sample_codec IsOrder sample_laws paid_invoice paid_invoice-IsStorable

sql_list_by_merchant_older_first_example :
    (sql_list_by_merchant sample_codec
        (codes "m")
        (pos 20)
        (pos 0)
        (sql_create sample_codec later_invoice
          (sql_create sample_codec order_invoice new_database).1).1
      ≡ ok (order_invoice ∷ later_invoice ∷ []))
    × (mem_list_by_merchant
          (codes "m")
          (pos 20)
          (pos 0)
          (mem_create later_invoice (mem_create order_invoice new_mem_repository).1).1
        ≡ ok (later_invoice ∷ order_invoice ∷ []))
unfolding str_eq
sql_list_by_merchant_older_first_example =
    sql_list_by_merchant_older_first sample_codec IsOrder sample_laws digits (codes "m")
      order_invoice later_invoice 18 7 (5 * 10 ^ 8) sample_times refl refl refl
      order_invoice-IsStorable later_invoice-IsStorable refl refl (omega arith) (omega arith)

abbrev pub order_calls : List Call
order_calls =
    create_call order_invoice
    ∷ index_call (codes "m")
    ∷ update_call paid_invoice
    ∷ get_call (codes "inv_1")
    ∷ []

run-same_example :
    (run (sql_repository sample_codec) order_calls new_database).0
    ≡ (run mem_repository order_calls new_mem_repository).0
unfolding get put str_eq call mem_repository mem_create mem_update mem_next_derivation_index
run-same_example =
    run-same sample_codec IsOrder sample_laws order_calls
      ((refl, order_invoice-IsStorable), (tt, ((paid_invoice-IsStorable, order_terms), (tt, tt))))

run-IsTable_example :
    IsTable sample_codec IsOrder sample_laws
      (run (sql_repository sample_codec) order_calls new_database).1
      (grown_by order_calls [])
unfolding str_eq
run-IsTable_example =
    run-IsTable sample_codec IsOrder sample_laws order_calls
      (order_invoice-IsStorable, (tt, ((paid_invoice-IsStorable, order_terms), (tt, tt))))

abbrev two_rows : Database
two_rows = record {
  is_open = true;
  invoices = row_of sample_codec paid_invoice ∷ row_of sample_codec later_invoice ∷ [];
  next_indices = [];
}

two_rows-IsTable :
    IsTable sample_codec IsOrder sample_laws two_rows (paid_invoice ∷ later_invoice ∷ [])
unfolding str_eq
two_rows-IsTable = record {
  opened = refl;
  rows = refl;
  keyed = (refl, (refl, tt));
  storable = (paid_invoice-IsStorable, (later_invoice-IsStorable, tt));
}

sql_list_open-exact_example :
    (found : List Invoice) × (sql_list_open sample_codec two_rows ≡ ok found)
    × ((x : Invoice)
        → Elem x found
          ↔ ((sql_get sample_codec x.id two_rows ≡ ok x) × (is_terminal x.status ≡ false)))
sql_list_open-exact_example =
    sql_list_open-exact sample_codec IsOrder sample_laws two_rows
      (paid_invoice ∷ later_invoice ∷ []) two_rows-IsTable
