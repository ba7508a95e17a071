-- ===== src/Store/Table.antt =====
-- internal/store/sqlite.go: the table as the invoices that were written to it.
use vex_pay.Common.{
  ◌≡◌, refl, ap, sym, subst, ◌∙◌, inl, inr, true, false, none, some, List, [], ◌∷◌, ◌++◌, arith,
  Bool-cases, Option-cases, some-injective, All, All-append, All-implies, ok, err, not_found,
}
use mathlib.Core.Option
use vex_pay.Common.Text.{Str, str_eq, str_eq_iff}
use vex_pay.Common.Dict.{Dict}
use vex_pay.Invoice.{Invoice}
use vex_pay.Invoice.Repository.{SameTerms}
use vex_pay.Store.Rows.{Codec, Row, row_of, set_columns}
use vex_pay.Store.RoundTrip.{CodecLaws, IsStorable, scan_invoice-row_of, set_columns-row_of}
use vex_pay.Store.Sqlite.{Database, new_database, row_at, set_at, sql_create, sql_get, sql_update}
use vex_pay.Store.Keyed.{
  invoice_at, replace, IsKeyed, IsKeyed-append, IsKeyed-replace, absent_others, replace_absent,
}

module _ (codec : Codec) where
  abbrev pub rows_of : List Invoice → List Row
  rows_of [] = []
  rows_of (inv ∷ invs) = row_of codec inv ∷ rows_of invs

  rows_of-append : (a b : List Invoice) → rows_of (a ++ b) ≡ rows_of a ++ rows_of b
  rows_of-append [] b = refl
  rows_of-append (x ∷ a) b = ap (λ r. row_of codec x ∷ r) (rows_of-append a b)

module _ (codec : Codec) (Canonical : Dict Str → Type 0) (laws : CodecLaws codec Canonical) where
  -- the database is open and its rows are those of storable invoices with different ids
  pub record IsTable (d : Database) (invs : List Invoice) : Type 0 where
    pub opened : d.is_open ≡ true
    pub rows : d.invoices ≡ rows_of codec invs
    pub keyed : IsKeyed invs
    pub storable : All (IsStorable Canonical) invs

  pub row_at-rows_of :
      (invs : List Invoice) (id : Str)
      → row_at (rows_of codec invs) id ≡ Option.map (row_of codec) (invoice_at invs id)
  unfolding row_at row_of
  row_at-rows_of [] id = refl
  row_at-rows_of (inv ∷ invs) id = ground (arith, row_at-rows_of invs id)

  IsStorable-invoice_at :
      (invs : List Invoice) (id : Str) (x : Invoice)
      → All (IsStorable Canonical) invs
      → invoice_at invs id ≡ some x
      → IsStorable Canonical x
  IsStorable-invoice_at [] id x h e = absurd (cc e)
  IsStorable-invoice_at (inv ∷ invs) id x (here, later) e = elim (Bool-cases (str_eq inv.id id)) [
    | inl same ↦ subst (IsStorable Canonical) (some-injective (rw same at e)) here
    | inr other ↦ IsStorable-invoice_at invs id x later (rw other at e)
  ]

  -- `Get` finds the invoices of the table, and no other
  pub sql_get-IsTable :
      (d : Database) (invs : List Invoice) (id : Str)
      → IsTable d invs
      → sql_get codec id d ≡ elim (invoice_at invs id) [ none ↦ err not_found | some inv ↦ ok inv ]
  unfolding sql_get
  sql_get-IsTable d invs id h =
      let row : row_at d.invoices id ≡ Option.map (row_of codec) (invoice_at invs id) =
        ap (λ rows. row_at rows id) h.rows ∙ row_at-rows_of invs id in
      elim (Option-cases (invoice_at invs id)) [
        | inl absent ↦
            let no_row : row_at d.invoices id ≡ none =
              row ∙ ap (Option.map (row_of codec)) absent in
            rw (absent, h.opened, no_row, sql_get) refl
        | inr (inv, there) ↦
            let found : row_at d.invoices id ≡ some (row_of codec inv) =
              row ∙ ap (Option.map (row_of codec)) there in
            rw (there, h.opened, found, sql_get)
              (scan_invoice-row_of codec Canonical laws inv
                (IsStorable-invoice_at invs id inv h.storable there))
      ]

  pub sql_create-IsTable :
      (d : Database) (invs : List Invoice) (inv : Invoice)
      → IsTable d invs
      → IsStorable Canonical inv
      → invoice_at invs inv.id ≡ none
      → IsTable (sql_create codec inv d).1 (invs ++ inv ∷ [])
  unfolding sql_create
  sql_create-IsTable d invs inv h fits fresh =
      let no_row : row_at d.invoices inv.id ≡ none =
        ap (λ rows. row_at rows inv.id) h.rows
        ∙ row_at-rows_of invs inv.id
        ∙ ap (Option.map (row_of codec)) fresh in
      rw (h.opened, no_row, sql_create)
        (record {
          opened = h.opened;
          rows =
              ap (λ rows. rows ++ row_of codec inv ∷ []) h.rows
              ∙ sym (rows_of-append codec invs (inv ∷ []));
          keyed = IsKeyed-append invs inv fresh h.keyed;
          storable = All-append (IsStorable Canonical) invs (inv ∷ []) h.storable (fits, tt);
        })

  -- the update's columns change the rows as the update changes the invoices
  set_at-rows_of :
      (invs : List Invoice) (new : Invoice)
      → All (λ x. str_eq x.id new.id ≡ true → SameTerms x new) invs
      → set_at (set_columns codec new) new.id (rows_of codec invs)
        ≡ rows_of codec (replace new invs)
  unfolding set_at row_of
  set_at-rows_of [] new h = refl
  set_at-rows_of (inv ∷ invs) new (here, later) = elim (Bool-cases (str_eq inv.id new.id)) [
    | inl same ↦
        let row = set_columns-row_of codec Canonical laws inv new (here same) in
        let rest = set_at-rows_of invs new later in rw (same, set_at) (cc (row, rest))
    | inr other ↦
        rw (other, set_at) (ap (λ r. row_of codec inv ∷ r) (set_at-rows_of invs new later))
  ]

  SameTerms-All :
      (invs : List Invoice) (new : Invoice)
      → IsKeyed invs
      → ((old : Invoice) → invoice_at invs new.id ≡ some old → SameTerms old new)
      → All (λ x. str_eq x.id new.id ≡ true → SameTerms x new) invs
  SameTerms-All [] new h terms = tt
  SameTerms-All (inv ∷ invs) new h terms = elim (Bool-cases (str_eq inv.id new.id)) [
    | inl same ↦ (
      λ e. terms inv (rw same refl),
      All-implies (λ x. str_eq x.id new.id ≡ false)
          (λ x. str_eq x.id new.id ≡ true → SameTerms x new) invs
          (λ x other e. absurd (cc (other, e)))
          (absent_others invs new.id
            (ap (invoice_at invs) (sym ((str_eq_iff inv.id new.id).0 same)) ∙ h.0)),
    )
    | inr other ↦
        (λ e. absurd (cc (other, e)), SameTerms-All invs new h.1 (λ old e. terms old (rw other e)))
  ]

  IsStorable-replace :
      (invs : List Invoice) (new : Invoice)
      → IsStorable Canonical new
      → All (IsStorable Canonical) invs
      → All (IsStorable Canonical) (replace new invs)
  IsStorable-replace [] new fits h = tt
  IsStorable-replace (inv ∷ invs) new fits (here, later) =
      elim (Bool-cases (str_eq inv.id new.id)) [
        | inl same ↦ rw same (fits, IsStorable-replace invs new fits later)
        | inr other ↦ rw other (here, IsStorable-replace invs new fits later)
      ]

  pub sql_update-IsTable :
      (d : Database) (invs : List Invoice) (new : Invoice)
      → IsTable d invs
      → IsStorable Canonical new
      → ((old : Invoice) → invoice_at invs new.id ≡ some old → SameTerms old new)
      → IsTable (sql_update codec new d).1 (replace new invs)
  unfolding sql_update
  sql_update-IsTable d invs new h fits terms =
      let row : row_at d.invoices new.id ≡ Option.map (row_of codec) (invoice_at invs new.id) =
        ap (λ rows. row_at rows new.id) h.rows ∙ row_at-rows_of invs new.id in
      elim (Option-cases (invoice_at invs new.id)) [
        | inl absent ↦
            let no_row : row_at d.invoices new.id ≡ none =
              row ∙ ap (Option.map (row_of codec)) absent in
            rw (h.opened, no_row, sql_update)
              (subst (IsTable d) (sym (replace_absent invs new (absent_others invs new.id absent)))
                h)
        | inr (old, there) ↦
            let found : row_at d.invoices new.id ≡ some (row_of codec old) =
              row ∙ ap (Option.map (row_of codec)) there in
            rw (h.opened, found, sql_update)
              (record {
                opened = h.opened;
                rows =
                    ap (set_at (set_columns codec new) new.id) h.rows
                    ∙ set_at-rows_of invs new (SameTerms-All invs new h.keyed terms);
                keyed = IsKeyed-replace invs new h.keyed;
                storable = IsStorable-replace invs new fits h.storable;
              })
      ]

  pub new_database-IsTable : IsTable new_database []
  new_database-IsTable = record { opened = refl; rows = refl; keyed = tt; storable = tt }
