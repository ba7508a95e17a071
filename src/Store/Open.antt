-- ===== src/Store/Open.antt =====
-- internal/store: the `Store` interface and `Open` of store.go, the store in memory of memory.go, and
-- the SQLite store. What the driver finds in a file is a parameter.
use vex_pay.Common.{
  Bool, true, false, not, Option, none, some, ◌++◌, ◌||◌, if◌then◌else◌, Result, ok, err, Error,
  ◌>>=◌, canceled, query_failed, missing_scheme, path_required, postgres_missing,
  unsupported_scheme,
}
use vex_pay.Common.Text.{Str, codes, str_eq, is_empty, cut}
use vex_pay.Common.Act.{Act}
use vex_pay.Invoice.Repository.{Repository}
use vex_pay.Invoice.Memory.{MemRepository, new_mem_repository, mem_repository}
use vex_pay.Store.Rows.{Codec}
use vex_pay.Store.Sqlite.{Database, sql_repository}

-- the `Store` interface over its state; a context is what `ctx.Err()` says
pub record Store (S : Type 0) : Type 0 where
  pub ping : Option Error → S → Result (Unit {0})
  pub invoices : Repository S
  pub close : Act S (Unit {0})

-- `memory`
pub record MemStore : Type 0 where
  pub closed : Bool
  pub repo : MemRepository

abbrev pub new_memory : MemStore
new_memory = record { closed = false; repo = new_mem_repository }

abbrev in_repo : {A : Type 0} → Act MemRepository A → Act MemStore A
in_repo method store =
    let (answer, repo) = method store.repo in (answer, record store { repo = repo })

-- `Invoices`: the repository, which does not ask whether the store is closed
unfoldable pub mem_invoices : Repository MemStore
mem_invoices = record {
  create = λ inv. in_repo (mem_repository.create inv);
  get = λ id store. mem_repository.get id store.repo;
  update = λ inv. in_repo (mem_repository.update inv);
  list_open = λ store. mem_repository.list_open store.repo;
  list_by_merchant = λ merchant limit offset store.
      mem_repository.list_by_merchant merchant limit offset store.repo;
  next_derivation_index = λ merchant. in_repo (mem_repository.next_derivation_index merchant);
}

unfoldable pub mem_ping : Option Error → MemStore → Result (Unit {0})
mem_ping (some e) store = err e
mem_ping none store = if store.closed then err canceled else ok tt

unfoldable pub mem_close : Act MemStore (Unit {0})
mem_close store = (ok tt, record store { closed = true })

unfoldable pub memory_store : Store MemStore
memory_store = record { ping = mem_ping; invoices = mem_invoices; close = mem_close }

-- `PingContext`: the handle is asked first, then the context
unfoldable pub sql_ping : Option Error → Database → Result (Unit {0})
sql_ping context db =
    if not db.is_open then err query_failed else elim context [ none ↦ ok tt | some e ↦ err e ]

unfoldable pub sql_close : Act Database (Unit {0})
sql_close db = (ok tt, record db { is_open = false })

unfoldable pub sqlite_store : Codec → Store Database
sqlite_store codec = record { ping = sql_ping; invoices = sql_repository codec; close = sql_close }

-- the name that the driver is given
abbrev pub data_source : Str → Str
data_source path =
    path ++ codes "?_pragma=busy_timeout(5000)&_pragma=journal_mode(WAL)&_pragma=foreign_keys(on)"

-- `openSQLite`: `connect` opens the source and makes the tables that are missing
unfoldable pub open_sqlite : (Str → Result Database) → Str → Result Database
open_sqlite connect path = connect (data_source path)

pub data Opened : Type 0 where
  in_memory : MemStore → Opened
  in_sqlite : Database → Opened

-- the scheme decides
unfoldable pub open_scheme : (Str → Result Database) → Str → Str → Result Opened
open_scheme connect scheme rest =
    if str_eq scheme (codes "memory")
    then ok (in_memory new_memory)
    else if str_eq scheme (codes "sqlite")
    then (if is_empty rest
        then err path_required
        else (do db ← open_sqlite connect rest; ok (in_sqlite db)))
    else if str_eq scheme (codes "postgres") || str_eq scheme (codes "postgresql")
    then err postgres_missing
    else err unsupported_scheme

-- `Open`
unfoldable pub open_store : (Str → Result Database) → Str → Result Opened
open_store connect database_url =
    let parts = cut b':' database_url in
    if not parts.found then err missing_scheme else open_scheme connect parts.before parts.after
