-- ===== src/Store/Agrees.antt =====
-- internal/store/sqlite.go against internal/invoice/memrepo.go: what the two repositories answer to
-- the same calls.
use vex_pay.Common.{
  ◌+◌, ◌%◌, ◌^◌, ◌≡◌, refl, ap, sym, ◌∙◌, subst, inl, inr, true, none, some, List, [], ◌∷◌, ◌++◌,
  arith, Bool-cases, Option-cases, some-injective, ok,
}
use mathlib.Core.Option
use vex_pay.Common.Text.{Str, str_eq, str_eq_iff}
use vex_pay.Common.Dict.{Dict, get, put, get-put}
use vex_pay.Invoice.{Invoice}
use vex_pay.Invoice.Repository.{SameTerms}
use vex_pay.Invoice.Memory.{
  MemRepository, new_mem_repository, mem_create, mem_get, mem_update, mem_next_derivation_index,
  mem_repository,
}
use vex_pay.Store.Rows.{Codec, Row, row_of, set_columns}
use vex_pay.Store.RoundTrip.{CodecLaws, IsStorable, scan_invoice-row_of, set_columns-row_of}
use vex_pay.Store.Sqlite.{
  Database, new_database, row_at, set_at, sql_create, sql_get, sql_update,
  sql_next_derivation_index, sql_repository,
}
use vex_pay.Store.Calls.{
  Call, create_call, get_call, update_call, index_call, done, answered, indexed, call, run,
}
use vex_pay.Store.Points.{row_at-append, row_at-set_at, counter, counter-put, index-wraps}

module _ (codec : Codec) (Canonical : Dict Str → Type 0) (laws : CodecLaws codec Canonical) where
  -- the database is open, has the row of each invoice of the map and no other, and counts alike
  -- modulo 2^32
  pub record Agree (m : MemRepository) (d : Database) : Type 0 where
    pub opened : d.is_open ≡ true
    pub rows : (id : Str) → row_at d.invoices id ≡ Option.map (row_of codec) (get m.by_id id)
    pub storable : (id : Str) (inv : Invoice) → get m.by_id id ≡ some inv → IsStorable Canonical inv
    pub counts :
        (merchant : Str) → counter m.seq merchant ≡ counter d.next_indices merchant % 2 ^ 32

  -- what the service keeps to: new ids for new invoices, updates that keep the terms
  abbrev pub Allowed : Call → MemRepository → Type 0
  Allowed (create_call inv) m = (get m.by_id inv.id ≡ none) × IsStorable Canonical inv
  Allowed (get_call id) m = Unit {0}
  Allowed (update_call inv) m =
      IsStorable Canonical inv
      × ((old : Invoice) → get m.by_id inv.id ≡ some old → SameTerms old inv)
  Allowed (index_call merchant) m = Unit {0}

  pub get-Agree :
      (id : Str) (m : MemRepository) (d : Database) → Agree m d → mem_get id m ≡ sql_get codec id d
  unfolding mem_get sql_get
  get-Agree id m d h = elim (Option-cases (get m.by_id id)) [
    | inl absent ↦
        let no_row : row_at d.invoices id ≡ none =
          h.rows id ∙ ap (Option.map (row_of codec)) absent in
        rw (absent, h.opened, no_row, sql_get, mem_get) refl
    | inr (inv, there) ↦
        let row : row_at d.invoices id ≡ some (row_of codec inv) =
          h.rows id ∙ ap (Option.map (row_of codec)) there in
        rw (there, h.opened, row, sql_get, mem_get)
          (sym (scan_invoice-row_of codec Canonical laws inv (h.storable id inv there)))
  ]

  put-IsStorable :
      (m : MemRepository) (inv : Invoice)
      → IsStorable Canonical inv
      → ((id : Str) (x : Invoice) → get m.by_id id ≡ some x → IsStorable Canonical x)
      → (id : Str) (x : Invoice) → get (put m.by_id inv.id inv) id ≡ some x
      → IsStorable Canonical x
  put-IsStorable m inv fits before id x there = elim (Bool-cases (str_eq inv.id id)) [
    | inl same ↦
        subst (IsStorable Canonical)
          (some-injective (rw (get-put m.by_id inv.id id inv, same) at there)) fits
    | inr other ↦ before id x (rw (get-put m.by_id inv.id id inv, other) at there)
  ]

  create-rows :
      (inv : Invoice) (m : Dict Invoice) (rows : List Row) (id : Str)
      → get m inv.id ≡ none
      → row_at rows id ≡ Option.map (row_of codec) (get m id)
      → row_at (rows ++ row_of codec inv ∷ []) id
        ≡ Option.map (row_of codec) (get (put m inv.id inv) id)
  unfolding row_of
  create-rows inv m rows id fresh before = ground (
    arith,
    row_at-append rows (row_of codec inv) id,
    get-put m inv.id id inv,
    before,
    fresh,
    str_eq_iff inv.id id,
  )

  update-rows :
      (old inv : Invoice) (m : Dict Invoice) (rows : List Row) (id : Str)
      → get m inv.id ≡ some old
      → SameTerms old inv
      → row_at rows id ≡ Option.map (row_of codec) (get m id)
      → row_at (set_at (set_columns codec inv) inv.id rows) id
        ≡ Option.map (row_of codec) (get (put m inv.id inv) id)
  unfolding set_columns
  update-rows old inv m rows id there same before = ground (
    arith,
    row_at-set_at (set_columns codec inv) inv.id id rows (λ (r : Row). refl),
    get-put m inv.id id inv,
    before,
    there,
    str_eq_iff inv.id id,
    set_columns-row_of codec Canonical laws old inv same,
  )

  pub create-Agree :
      (inv : Invoice) (m : MemRepository) (d : Database)
      → Agree m d
      → Allowed (create_call inv) m
      → ((mem_create inv m).0 ≡ (sql_create codec inv d).0)
        × Agree (mem_create inv m).1 (sql_create codec inv d).1
  unfolding mem_create sql_create
  create-Agree inv m d h (fresh, fits) =
      let no_row : row_at d.invoices inv.id ≡ none =
        h.rows inv.id ∙ ap (Option.map (row_of codec)) fresh in
      rw (h.opened, no_row, sql_create)
        (
          refl,
          record {
            opened = h.opened;
            rows = λ id. create-rows inv m.by_id d.invoices id fresh (h.rows id);
            storable = put-IsStorable m inv fits h.storable;
            counts = h.counts;
          },
        )

  pub update-Agree :
      (inv : Invoice) (m : MemRepository) (d : Database)
      → Agree m d
      → Allowed (update_call inv) m
      → ((mem_update inv m).0 ≡ (sql_update codec inv d).0)
        × Agree (mem_update inv m).1 (sql_update codec inv d).1
  unfolding mem_update sql_update
  update-Agree inv m d h (fits, terms) = elim (Option-cases (get m.by_id inv.id)) [
    | inl absent ↦
        let no_row : row_at d.invoices inv.id ≡ none =
          h.rows inv.id ∙ ap (Option.map (row_of codec)) absent in
        rw (h.opened, no_row, sql_update, absent, mem_update) (refl, h)
    | inr (old, there) ↦
        let row : row_at d.invoices inv.id ≡ some (row_of codec old) =
          h.rows inv.id ∙ ap (Option.map (row_of codec)) there in
        rw (h.opened, row, sql_update, there, mem_update)
          (
            refl,
            record {
              opened = h.opened;
              rows = λ id.
                  update-rows old inv m.by_id d.invoices id there (terms old there) (h.rows id);
              storable = put-IsStorable m inv fits h.storable;
              counts = h.counts;
            },
          )
  ]

  pub index-Agree :
      (merchant : Str) (m : MemRepository) (d : Database)
      → Agree m d
      → ((mem_next_derivation_index merchant m).0 ≡ (sql_next_derivation_index codec merchant d).0)
        × Agree
            (mem_next_derivation_index merchant m).1
            (sql_next_derivation_index codec merchant d).1
  unfolding mem_next_derivation_index sql_next_derivation_index
  index-Agree merchant m d h =
      rw (h.opened, sql_next_derivation_index)
        (
          ap ok (h.counts merchant),
          record {
            opened = refl;
            rows = h.rows;
            storable = h.storable;
            counts = λ j. ground (
              arith,
              counter-put m.seq merchant j ((counter m.seq merchant + 1) % 2 ^ 32),
              counter-put d.next_indices merchant j (counter d.next_indices merchant + 1),
              h.counts merchant,
              h.counts j,
              index-wraps (counter d.next_indices merchant),
            );
          },
        )

  call-Agree :
      (c : Call) (m : MemRepository) (d : Database)
      → Agree m d
      → Allowed c m
      → ((call mem_repository c m).0 ≡ (call (sql_repository codec) c d).0)
        × Agree (call mem_repository c m).1 (call (sql_repository codec) c d).1
  unfolding call mem_repository sql_repository
  call-Agree (create_call inv) m d h allowed =
      let both = create-Agree inv m d h allowed in (ap done both.0, both.1)
  call-Agree (get_call id) m d h allowed = (ap answered (get-Agree id m d h), h)
  call-Agree (update_call inv) m d h allowed =
      let both = update-Agree inv m d h allowed in (ap done both.0, both.1)
  call-Agree (index_call merchant) m d h allowed =
      let both = index-Agree merchant m d h in (ap indexed both.0, both.1)

  -- each call is allowed where the run reaches it
  abbrev pub AllAllowed : List Call → MemRepository → Type 0
  AllAllowed [] m = Unit {0}
  AllAllowed (c ∷ cs) m = Allowed c m × AllAllowed cs (call mem_repository c m).1

  pub runs-Agree :
      (cs : List Call) (m : MemRepository) (d : Database)
      → Agree m d
      → AllAllowed cs m
      → ((run mem_repository cs m).0 ≡ (run (sql_repository codec) cs d).0)
        × Agree (run mem_repository cs m).1 (run (sql_repository codec) cs d).1
  unfolding run
  runs-Agree [] m d h allowed = (refl, h)
  runs-Agree (c ∷ cs) m d h (now, later) =
      let here = call-Agree c m d h now in
      let rest =
        runs-Agree cs (call mem_repository c m).1 (call (sql_repository codec) c d).1 here.1
          later in
      (cc (here.0, rest.0), rest.1)

  pub Agree-new : Agree new_mem_repository new_database
  unfolding row_at get
  Agree-new = record {
    opened = refl;
    rows = λ (id : Str). refl;
    storable = λ (id : Str) (inv : Invoice) (h : none ≡ some inv). absurd (cc h);
    counts = λ (merchant : Str). refl;
  }

  -- Whatever the sequence of calls of `Create`, `Get`, `Update` and `NextDerivationIndex`, the
  -- repository over SQLite gives the answers of the one in memory, both new, if the invoices are of
  -- amounts, times and metadata that the columns keep, each created invoice has a new id, and updates keep
  -- the terms of the invoice.
  pub run-same :
      (cs : List Call)
      → AllAllowed cs new_mem_repository
      → (run (sql_repository codec) cs new_database).0
        ≡ (run mem_repository cs new_mem_repository).0
  run-same cs allowed = sym (runs-Agree cs new_mem_repository new_database Agree-new allowed).0
