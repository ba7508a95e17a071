-- ===== src/Store/Invariant.antt =====
-- internal/store/sqlite.go: the table behind a sequence of calls.
use vex_pay.Common.{
  ◌≡◌, refl, ap, ◌∙◌, inl, inr, some, List, [], ◌∷◌, ◌++◌, if◌then◌else◌, is_some, Option-cases,
}
use mathlib.Core.Option
use vex_pay.Common.Text.{Str}
use vex_pay.Common.Dict.{Dict}
use vex_pay.Invoice.{Invoice}
use vex_pay.Invoice.Repository.{SameTerms}
use vex_pay.Store.Rows.{Codec, row_of}
use vex_pay.Store.RoundTrip.{CodecLaws, IsStorable}
use vex_pay.Store.Sqlite.{
  Database, new_database, row_at, sql_create, sql_next_derivation_index, sql_repository,
}
use vex_pay.Store.Calls.{Call, create_call, get_call, update_call, index_call, call, run}
use vex_pay.Store.Keyed.{invoice_at, replace}
use vex_pay.Store.Table.{
  row_at-rows_of, IsTable, sql_create-IsTable, sql_update-IsTable, new_database-IsTable,
}

-- the invoices behind a call: an id that is taken is refused, and so is an update of no invoice
abbrev pub grown : Call → List Invoice → List Invoice
grown (create_call inv) invs = if is_some (invoice_at invs inv.id) then invs else invs ++ inv ∷ []
grown (get_call id) invs = invs
grown (update_call inv) invs = replace inv invs
grown (index_call merchant) invs = invs

abbrev pub grown_by : List Call → List Invoice → List Invoice
grown_by [] invs = invs
grown_by (c ∷ cs) invs = grown_by cs (grown c invs)

module _ (codec : Codec) (Canonical : Dict Str → Type 0) (laws : CodecLaws codec Canonical) where
  -- storable invoices, and updates that keep the terms
  abbrev pub Fits : Call → List Invoice → Type 0
  Fits (create_call inv) invs = IsStorable Canonical inv
  Fits (get_call id) invs = Unit {0}
  Fits (update_call inv) invs =
      IsStorable Canonical inv
      × ((old : Invoice) → invoice_at invs inv.id ≡ some old → SameTerms old inv)
  Fits (index_call merchant) invs = Unit {0}

  abbrev pub AllFit : List Call → List Invoice → Type 0
  AllFit [] invs = Unit {0}
  AllFit (c ∷ cs) invs = Fits c invs × AllFit cs (grown c invs)

  create-IsTable :
      (d : Database) (invs : List Invoice) (inv : Invoice)
      → IsTable codec Canonical laws d invs
      → IsStorable Canonical inv
      → IsTable codec Canonical laws (sql_create codec inv d).1 (grown (create_call inv) invs)
  unfolding sql_create
  create-IsTable d invs inv h fits = elim (Option-cases (invoice_at invs inv.id)) [
    | inl fresh ↦ rw fresh (sql_create-IsTable codec Canonical laws d invs inv h fits fresh)
    | inr (old, taken) ↦
        let row : row_at d.invoices inv.id ≡ some (row_of codec old) =
          ap (λ rows. row_at rows inv.id) h.rows
          ∙ row_at-rows_of codec Canonical laws invs inv.id
          ∙ ap (Option.map (row_of codec)) taken in
        rw (taken, h.opened, row, sql_create) h
  ]

  index-IsTable :
      (d : Database) (invs : List Invoice) (merchant : Str)
      → IsTable codec Canonical laws d invs
      → IsTable codec Canonical laws (sql_next_derivation_index codec merchant d).1 invs
  unfolding sql_next_derivation_index
  index-IsTable d invs merchant h =
      rw (h.opened, sql_next_derivation_index)
        (record { opened = refl; rows = h.rows; keyed = h.keyed; storable = h.storable })

  call-IsTable :
      (c : Call) (d : Database) (invs : List Invoice)
      → IsTable codec Canonical laws d invs
      → Fits c invs
      → IsTable codec Canonical laws (call (sql_repository codec) c d).1 (grown c invs)
  unfolding call sql_repository
  call-IsTable (create_call inv) d invs h fits = create-IsTable d invs inv h fits
  call-IsTable (get_call id) d invs h fits = h
  call-IsTable (update_call inv) d invs h (fits, terms) =
      sql_update-IsTable codec Canonical laws d invs inv h fits terms
  call-IsTable (index_call merchant) d invs h fits = index-IsTable d invs merchant h

  runs-IsTable :
      (cs : List Call) (d : Database) (invs : List Invoice)
      → IsTable codec Canonical laws d invs
      → AllFit cs invs
      → IsTable codec Canonical laws (run (sql_repository codec) cs d).1 (grown_by cs invs)
  unfolding run
  runs-IsTable [] d invs h fits = h
  runs-IsTable (c ∷ cs) d invs h (here, later) =
      runs-IsTable cs (call (sql_repository codec) c d).1 (grown c invs)
        (call-IsTable c d invs h here) later

  -- Whatever the sequence of calls of storable invoices and of updates that keep the terms, the
  -- database that they leave, from a new one on, is open, has at most one row for an id, and each
  -- of its rows is that of the invoice as it was last written.
  pub run-IsTable :
      (cs : List Call)
      → AllFit cs []
      → IsTable codec Canonical laws (run (sql_repository codec) cs new_database).1 (grown_by cs [])
  run-IsTable cs fits =
      runs-IsTable cs new_database [] (new_database-IsTable codec Canonical laws) fits
