-- ===== src/Store/RoundTrip.antt =====
-- internal/store/sqlite.go: an invoice written to its row and scanned again.
use vex_pay.Common.{
  ◌*◌, ◌^◌, ◌≡◌, refl, ap, sym, ◌∙◌, false, ◌||◌, Option, none, some, [], ◌∷◌, if◌then◌else◌, ok,
}
use vex_pay.Common.Int.{ℤ, pos, neg, ◌≤ℤ◌, ◌<ℤ◌}
use vex_pay.Common.Text.{Str, codes, str_eq, is_empty}
use vex_pay.Common.Text.Decimal.{int_string, set_string-int_string}
use vex_pay.Common.Dict.{Dict}
use vex_pay.Money.{Asset, from_units, must_units}
use vex_pay.Invoice.{Invoice, Time}
use vex_pay.Invoice.Repository.{SameTerms}
use vex_pay.Store.Rows.{
  Codec, parse_amount, marshal_metadata, unmarshal_metadata, format_time_ptr, parse_time, row_of,
  set_columns, invoice_of, scan_invoice,
}

-- the years 0 to 9999, which RFC 3339 can write
abbrev pub IsPrintable : Time → Type 0
IsPrintable t = (neg (pos (62167219200 * 10 ^ 9)) ≤ℤ t) × (t <ℤ pos (253402300800 * 10 ^ 9))

-- what the libraries promise. `Canonical` holds of the lists of entries in the order that the
-- encoder gives to the keys of a map, with texts in UTF-8.
pub record CodecLaws (codec : Codec) (Canonical : Dict Str → Type 0) : Type 0 where
  pub time_round : (t : Time) → IsPrintable t → codec.time_parse (codec.time_text t) ≡ some t
  pub time_written : (t : Time) → is_empty (codec.time_text t) ≡ false
  pub json_round :
      (e : Str × Str) (m : Dict Str)
      → Canonical (e ∷ m)
      → codec.json_unmarshal (codec.json_marshal (e ∷ m)) ≡ some (e ∷ m)
  pub json_written :
      (e : Str × Str) (m : Dict Str)
      → (is_empty (codec.json_marshal (e ∷ m)) || str_eq (codec.json_marshal (e ∷ m)) (codes "{}"))
        ≡ false

-- amounts of the invoice's asset, a map, and times that can be written
pub record IsStorable (Canonical : Dict Str → Type 0) (inv : Invoice) : Type 0 where
  pub amount : inv.amount ≡ from_units inv.asset (must_units inv.amount)
  pub received : inv.received ≡ from_units inv.asset (must_units inv.received)
  pub metadata : Canonical inv.metadata
  pub created : IsPrintable inv.created_at
  pub expires : IsPrintable inv.expires_at
  pub updated : IsPrintable inv.updated_at
  pub paid : (t : Time) → inv.paid_at ≡ some t → IsPrintable t

parse_amount-int_string :
    (asset : Asset) (x : ℤ) → parse_amount asset (int_string x) ≡ ok (from_units asset x)
unfolding parse_amount
parse_amount-int_string asset x = rw (set_string-int_string x) refl

module _ (codec : Codec) (Canonical : Dict Str → Type 0) (laws : CodecLaws codec Canonical) where
  unmarshal-marshal :
      (m : Dict Str) → Canonical m → unmarshal_metadata codec (marshal_metadata codec m) ≡ m
  unfolding unmarshal_metadata marshal_metadata str_eq
  unmarshal-marshal [] h = refl
  unmarshal-marshal (e ∷ m) h =
      rw (laws.json_written e m, laws.json_round e m h, unmarshal_metadata) refl

  parse-text : (t : Time) → IsPrintable t → parse_time codec (codec.time_text t) ≡ t
  unfolding parse_time
  parse-text t h = rw (laws.time_round t h, parse_time) refl

  parse-format_time_ptr :
      (t : Option Time)
      → ((u : Time) → t ≡ some u → IsPrintable u)
      → (if is_empty (format_time_ptr codec t)
          then none
          else some (parse_time codec (format_time_ptr codec t)))
        ≡ t
  unfolding format_time_ptr
  parse-format_time_ptr none h = refl
  parse-format_time_ptr (some t) h = rw (laws.time_written t, parse-text t (h t refl)) refl

  invoice_of-row_of :
      (inv : Invoice)
      → IsStorable Canonical inv
      → invoice_of codec (row_of codec inv) inv.asset inv.amount inv.received ≡ inv
  unfolding row_of invoice_of
  invoice_of-row_of inv h =
      rw
        (
          unmarshal-marshal inv.metadata h.metadata,
          parse-text inv.created_at h.created,
          parse-text inv.expires_at h.expires,
          parse-text inv.updated_at h.updated,
          parse-format_time_ptr inv.paid_at h.paid,
        )
        refl

  -- What `Create` writes of an invoice whose amounts are of its asset and whose times RFC 3339 can
  -- write, `scanInvoice` reads back as the same invoice, every field of it.
  pub scan_invoice-row_of :
      (inv : Invoice) → IsStorable Canonical inv → scan_invoice codec (row_of codec inv) ≡ ok inv
  unfolding scan_invoice row_of
  scan_invoice-row_of inv h =
      let amount : parse_amount inv.asset (int_string (must_units inv.amount)) ≡ ok inv.amount =
        parse_amount-int_string inv.asset (must_units inv.amount) ∙ ap ok (sym h.amount) in
      let received : parse_amount inv.asset (int_string (must_units inv.received))
          ≡ ok inv.received =
        parse_amount-int_string inv.asset (must_units inv.received) ∙ ap ok (sym h.received) in
      rw (amount, received) (ap ok (invoice_of-row_of inv h))

  -- Setting the six columns of an update gives the row of the new invoice.
  pub set_columns-row_of :
      (old inv : Invoice)
      → SameTerms old inv
      → set_columns codec inv (row_of codec old) ≡ row_of codec inv
  unfolding set_columns row_of
  set_columns-row_of old inv h =
      rw
        (
          h.id, h.merchant_id, h.chain, h.asset, h.amount, h.fiat_currency, h.fiat_amount, h.rate,
          h.receive_address, h.payment_uri, h.strategy, h.derivation_index, h.required_confs,
          h.metadata, h.created_at, h.expires_at,
        )
        refl
