-- ===== src/Store/Sqlite.antt =====
-- internal/store/sqlite.go: the database and the repository over it. SQLite serialises what the code
-- sends, so each method is one step; a statement is what its SQL says.
use vex_pay.Common.{
  ℕ, ◌+◌, ◌%◌, ◌^◌, Bool, true, not, ◌||◌, Option, none, some, List, [], ◌∷◌, ◌++◌, if◌then◌else◌,
  take, drop, Result, ok, err, not_found, insert_failed, update_failed, query_failed, index_failed,
}
use vex_pay.Common.Int.{ℤ, pos, negsuc, leb_ℤ, abs}
use vex_pay.Common.Text.{Str, str_eq}
use vex_pay.Common.Dict.{Dict, get, put}
use vex_pay.Common.Act.{Act}
use vex_pay.Chain.{str_ltb}
use vex_pay.Invoice.{Invoice, pending, underpaid, confirming, status_eq}
use vex_pay.Invoice.Repository.{Repository}
use vex_pay.Store.Rows.{Codec, Row, row_of, set_columns, scan_invoice, scan_invoices}

-- the two tables; `is_open` turns false when the handle is closed, and then every statement fails
pub record Database : Type 0 where
  pub is_open : Bool
  pub invoices : List Row
  pub next_indices : Dict ℕ

-- a file that `openSQLite` made: the schema creates the two tables
abbrev pub new_database : Database
new_database = record { is_open = true; invoices = []; next_indices = [] }

-- `SELECT ... WHERE id = ?`: the primary key finds one row at most
unfoldable pub row_at : List Row → Str → Option Row
row_at [] id = none
row_at (row ∷ rows) id = let rest = row_at rows id in if str_eq row.id id then some row else rest

-- `UPDATE ... WHERE id = ?`
unfoldable pub set_at : (Row → Row) → Str → List Row → List Row
set_at f id [] = []
set_at f id (row ∷ rows) =
    let rest = set_at f id rows in if str_eq row.id id then f row ∷ rest else row ∷ rest

unfoldable pub filter_rows : (Row → Bool) → List Row → List Row
filter_rows keep [] = []
filter_rows keep (row ∷ rows) =
    let rest = filter_rows keep rows in if keep row then row ∷ rest else rest

-- `ORDER BY created_at ASC` and `DESC`: the column holds texts, which are compared as texts. Rows
-- with the same text come in the order of their insertion; SQL leaves that order open.
unfoldable pub insert_asc : Row → List Row → List Row
insert_asc x [] = x ∷ []
insert_asc x (y ∷ ys) =
    let rest = insert_asc x ys in if str_ltb y.created_at x.created_at then y ∷ rest else x ∷ y ∷ ys

unfoldable pub order_asc : List Row → List Row
order_asc [] = []
order_asc (x ∷ xs) = insert_asc x (order_asc xs)

unfoldable pub insert_desc : Row → List Row → List Row
insert_desc x [] = x ∷ []
insert_desc x (y ∷ ys) =
    let rest = insert_desc x ys in
    if str_ltb x.created_at y.created_at then y ∷ rest else x ∷ y ∷ ys

unfoldable pub order_desc : List Row → List Row
order_desc [] = []
order_desc (x ∷ xs) = insert_desc x (order_desc xs)

-- `LIMIT ? OFFSET ?` for a positive limit; SQLite reads a negative offset as 0
unfoldable pub limit_offset : ℤ → ℤ → List Row → List Row
limit_offset limit offset rows =
    take (abs limit) (drop (elim offset [ pos n ↦ n | negsuc _ ↦ 0 ]) rows)

-- `status IN ('pending','underpaid','confirming')`
unfoldable pub is_open_row : Row → Bool
is_open_row row =
    status_eq row.status pending
    || status_eq row.status underpaid
    || status_eq row.status confirming

-- the limit that `ListByMerchant` falls back to
unfoldable pub page_limit : ℤ → ℤ
page_limit limit = if leb_ℤ limit (pos 0) then pos 20 else limit

module _ (codec : Codec) where
  unfoldable pub sql_create : Invoice → Act Database (Unit {0})
  sql_create inv db =
      if not db.is_open then (err insert_failed, db) else elim (row_at db.invoices inv.id) [
        | some _ ↦ (err insert_failed, db)
        | none ↦ (ok tt, record db { invoices = db.invoices ++ row_of codec inv ∷ [] })
      ]

  unfoldable pub sql_get : Str → Database → Result Invoice
  sql_get id db =
      if not db.is_open
      then err query_failed
      else elim (row_at db.invoices id) [ none ↦ err not_found | some row ↦ scan_invoice codec row ]

  unfoldable pub sql_update : Invoice → Act Database (Unit {0})
  sql_update inv db =
      if not db.is_open then (err update_failed, db) else elim (row_at db.invoices inv.id) [
        | none ↦ (err not_found, db)
        | some _ ↦
            (ok tt, record db { invoices = set_at (set_columns codec inv) inv.id db.invoices })
      ]

  unfoldable pub sql_list_open : Database → Result (List Invoice)
  sql_list_open db =
      if not db.is_open
      then err query_failed
      else scan_invoices codec (order_asc (filter_rows is_open_row db.invoices))

  unfoldable pub sql_list_by_merchant : Str → ℤ → ℤ → Database → Result (List Invoice)
  sql_list_by_merchant merchant limit offset db =
      if not db.is_open
      then err query_failed
      else scan_invoices codec (
          limit_offset (page_limit limit) offset
            (order_desc (filter_rows (λ row. str_eq row.merchant_id merchant) db.invoices)))

  -- `INSERT ... ON CONFLICT DO UPDATE SET next_index = next_index + 1 RETURNING next_index - 1`, and
  -- `uint32` of the answer. The column is a 64-bit integer, which no run fills.
  unfoldable pub sql_next_derivation_index : Str → Act Database ℕ
  sql_next_derivation_index merchant db =
      if not db.is_open
      then (err index_failed, db)
      else (let next : ℕ = elim (get db.next_indices merchant) [ none ↦ 0 | some n ↦ n ] in
          (
            ok (next % 2 ^ 32),
            record db { next_indices = put db.next_indices merchant (next + 1) },
          ))

  unfoldable pub sql_repository : Repository Database
  unfolding sql_create sql_get sql_update sql_list_open sql_list_by_merchant
      sql_next_derivation_index
  sql_repository = record {
    create = sql_create;
    get = sql_get;
    update = sql_update;
    list_open = sql_list_open;
    list_by_merchant = sql_list_by_merchant;
    next_derivation_index = sql_next_derivation_index;
  }
