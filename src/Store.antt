-- ===== src/Store.antt =====
-- internal/store: the row encoding and the statements of sqlite.go, and the stores of store.go and
-- memory.go.
pub mod Rows
pub mod RoundTrip
pub mod Sqlite
pub mod Calls
pub mod Points
pub mod Agrees
pub mod Order
pub mod Keyed
pub mod Table
pub mod Listing
pub mod Behind
pub mod Issued
pub mod Invariant
pub mod Open
pub mod Sample
pub mod Tests
pub mod ServiceTests
