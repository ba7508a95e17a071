-- ===== src/Store/Listing.antt =====
-- internal/store/sqlite.go: what `ListOpen` and `ListByMerchant` return.
use vex_pay.Common.{
  ◌≡◌, refl, ap, ◌∙◌, ◌↔◌, ◌⊎◌, inl, inr, Bool, true, false, not, ◌||◌, List, [], ◌∷◌,
  if◌then◌else◌, arith, Bool-cases, All, ok,
}
use vex_pay.Common.Text.{Str}
use vex_pay.Common.Dict.{Dict}
use vex_pay.Chain.{str_ltb}
use vex_pay.Invoice.{
  Invoice, Status, pending, underpaid, confirming, paid, overpaid, expired, is_terminal, status_eq,
}
use vex_pay.Invoice.Memory.Listing.{Elem}
use vex_pay.Store.Rows.{Codec, row_of, scan_invoices}
use vex_pay.Store.RoundTrip.{CodecLaws, IsStorable, scan_invoice-row_of}
use vex_pay.Store.Sqlite.{
  Database, filter_rows, insert_asc, order_asc, is_open_row, sql_get, sql_list_open,
}
use vex_pay.Store.Keyed.{Elem-invoice_at}
use vex_pay.Store.Table.{rows_of, IsTable, sql_get-IsTable}

-- the list of the open invoices before it is ordered
abbrev pub keep : (Invoice → Bool) → List Invoice → List Invoice
keep wanted [] = []
keep wanted (inv ∷ invs) = if wanted inv then inv ∷ keep wanted invs else keep wanted invs

Elem-keep :
    (wanted : Invoice → Bool) (x : Invoice) (invs : List Invoice)
    → Elem x (keep wanted invs) ↔ (Elem x invs × (wanted x ≡ true))
Elem-keep wanted x [] = ground arith
Elem-keep wanted x (inv ∷ invs) = elim (Bool-cases (wanted inv)) [
  | inl kept ↦ rw kept (ground (arith, Elem-keep wanted x invs))
  | inr dropped ↦ rw dropped (ground (arith, Elem-keep wanted x invs))
]

keep-All :
    (P : Invoice → Type 0) (wanted : Invoice → Bool) (invs : List Invoice)
    → All P invs
    → All P (keep wanted invs)
keep-All P wanted [] h = tt
keep-All P wanted (inv ∷ invs) (here, later) = elim (Bool-cases (wanted inv)) [
  | inl kept ↦ rw kept (here, keep-All P wanted invs later)
  | inr dropped ↦ rw dropped (keep-All P wanted invs later)
]

is_open-status :
    (s : Status)
    → (status_eq s pending || status_eq s underpaid || status_eq s confirming) ≡ not (is_terminal s)
unfolding is_terminal status_eq
is_open-status pending = refl
is_open-status underpaid = refl
is_open-status confirming = refl
is_open-status paid = refl
is_open-status overpaid = refl
is_open-status expired = refl

module _ (codec : Codec) where
  is_open_row-status : (x : Invoice) → is_open_row (row_of codec x) ≡ not (is_terminal x.status)
  unfolding is_open_row row_of
  is_open_row-status x = is_open-status x.status

  -- insertion by the text of the time of creation
  abbrev insert_text : Invoice → List Invoice → List Invoice
  insert_text x [] = x ∷ []
  insert_text x (y ∷ ys) =
      if str_ltb (codec.time_text y.created_at) (codec.time_text x.created_at)
      then y ∷ insert_text x ys
      else x ∷ y ∷ ys

  abbrev pub by_text : List Invoice → List Invoice
  by_text [] = []
  by_text (x ∷ xs) = insert_text x (by_text xs)

  Elem-insert_text :
      (z x : Invoice) (ys : List Invoice) → Elem z (insert_text x ys) ↔ ((z ≡ x) ⊎ Elem z ys)
  Elem-insert_text z x [] = ground arith
  Elem-insert_text z x (y ∷ ys) =
      elim (Bool-cases (str_ltb (codec.time_text y.created_at) (codec.time_text x.created_at))) [
        | inl before ↦ rw before (ground (arith, Elem-insert_text z x ys))
        | inr behind ↦ rw behind (ground arith)
      ]

  Elem-by_text : (z : Invoice) (xs : List Invoice) → Elem z (by_text xs) ↔ Elem z xs
  Elem-by_text z [] = ground arith
  Elem-by_text z (x ∷ xs) = ground (arith, Elem-insert_text z x (by_text xs), Elem-by_text z xs)

  insert_text-All :
      (P : Invoice → Type 0) (x : Invoice) (ys : List Invoice)
      → P x
      → All P ys
      → All P (insert_text x ys)
  insert_text-All P x [] hx h = (hx, tt)
  insert_text-All P x (y ∷ ys) hx (here, later) =
      elim (Bool-cases (str_ltb (codec.time_text y.created_at) (codec.time_text x.created_at))) [
        | inl before ↦ rw before (here, insert_text-All P x ys hx later)
        | inr behind ↦ rw behind (hx, (here, later))
      ]

  by_text-All : (P : Invoice → Type 0) (xs : List Invoice) → All P xs → All P (by_text xs)
  by_text-All P [] h = tt
  by_text-All P (x ∷ xs) (here, later) =
      insert_text-All P x (by_text xs) here (by_text-All P xs later)

  insert_asc-rows_of :
      (x : Invoice) (ys : List Invoice)
      → insert_asc (row_of codec x) (rows_of codec ys) ≡ rows_of codec (insert_text x ys)
  unfolding insert_asc row_of
  insert_asc-rows_of x [] = refl
  insert_asc-rows_of x (y ∷ ys) =
      elim (Bool-cases (str_ltb (codec.time_text y.created_at) (codec.time_text x.created_at))) [
        | inl before ↦
            rw (before, insert_asc) (ap (λ r. row_of codec y ∷ r) (insert_asc-rows_of x ys))
        | inr behind ↦ rw (behind, insert_asc) refl
      ]

  order_asc-rows_of :
      (xs : List Invoice) → order_asc (rows_of codec xs) ≡ rows_of codec (by_text xs)
  unfolding order_asc
  order_asc-rows_of [] = refl
  order_asc-rows_of (x ∷ xs) =
      ap (insert_asc (row_of codec x)) (order_asc-rows_of xs) ∙ insert_asc-rows_of x (by_text xs)

  filter_open-rows_of :
      (xs : List Invoice)
      → filter_rows is_open_row (rows_of codec xs)
        ≡ rows_of codec (keep (λ inv. not (is_terminal inv.status)) xs)
  unfolding filter_rows
  filter_open-rows_of [] = refl
  filter_open-rows_of (x ∷ xs) =
      let same : is_open_row (row_of codec x) ≡ not (is_terminal x.status) = is_open_row-status x in
      elim (Bool-cases (is_terminal x.status)) [
        | inl over ↦ rw (same, over) (filter_open-rows_of xs)
        | inr still ↦ rw (same, still) (ap (λ r. row_of codec x ∷ r) (filter_open-rows_of xs))
      ]

module _ (codec : Codec) (Canonical : Dict Str → Type 0) (laws : CodecLaws codec Canonical) where
  scan_invoices-rows_of :
      (xs : List Invoice)
      → All (IsStorable Canonical) xs
      → scan_invoices codec (rows_of codec xs) ≡ ok xs
  unfolding scan_invoices
  scan_invoices-rows_of [] h = refl
  scan_invoices-rows_of (x ∷ xs) (here, later) =
      rw (scan_invoice-row_of codec Canonical laws x here, scan_invoices-rows_of xs later) refl

  sql_list_open-IsTable :
      (d : Database) (invs : List Invoice)
      → IsTable codec Canonical laws d invs
      → sql_list_open codec d ≡ ok (by_text codec (keep (λ inv. not (is_terminal inv.status)) invs))
  unfolding sql_list_open
  sql_list_open-IsTable d invs h =
      let wanted : Invoice → Bool = λ inv. not (is_terminal inv.status) in
      let filtered = ap (filter_rows is_open_row) h.rows ∙ filter_open-rows_of codec invs in
      let ordered = ap order_asc filtered ∙ order_asc-rows_of codec (keep wanted invs) in
      rw (h.opened, sql_list_open)
        (ap (scan_invoices codec) ordered
          ∙ scan_invoices-rows_of (by_text codec (keep wanted invs)) (
              by_text-All codec (IsStorable Canonical) (keep wanted invs)
                (keep-All (IsStorable Canonical) wanted invs h.storable)))

  -- On a table of storable invoices `ListOpen` of SQLite succeeds, and returns exactly the invoices
  -- that `Get` finds and whose status is not terminal.
  pub sql_list_open-exact :
      (d : Database) (invs : List Invoice)
      → IsTable codec Canonical laws d invs
      → (found : List Invoice) × (sql_list_open codec d ≡ ok found)
        × ((x : Invoice)
            → Elem x found ↔ ((sql_get codec x.id d ≡ ok x) × (is_terminal x.status ≡ false)))
  sql_list_open-exact d invs h = (
    by_text codec (keep (λ inv. not (is_terminal inv.status)) invs),
    sql_list_open-IsTable d invs h,
    λ x. ground (
      arith,
      Elem-by_text codec x (keep (λ inv. not (is_terminal inv.status)) invs),
      Elem-keep (λ inv. not (is_terminal inv.status)) x invs,
      Elem-invoice_at invs x h.keyed,
      sql_get-IsTable codec Canonical laws d invs x.id h,
    ),
  )
