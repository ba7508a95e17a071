-- ===== src/Lib.antt =====
-- VexPay: a payment gateway that watches blockchains for payments to derived addresses.
--
-- Parts and files. Paths are from the repository's root.
-- - Money: internal/money (money.go, assets.go): assets, exact amounts in the smallest unit,
--   `ParseDecimal` and `String`.
-- - Chain: internal/chain (chain.go, registry.go): the adapter interface and the registry.
--   Chain/Mock: internal/chain/mock, the sandbox chain. Chain/Bitcoin: internal/chain/btc;
--   Chain/Bitcoin/Mempool has the requests of backend.go.
-- - Invoice: internal/invoice/invoice.go and `decide` of service.go. Invoice/Repository is the
--   interface of repository.go with what a repository promises; Invoice/Memory is memrepo.go;
--   Invoice/Service is service.go (`NewService`, `Create`, `Get`, `List`, `Sync`, `ProcessOpen`);
--   Invoice/View is view.go; Invoice/Ids is id.go.
-- - Rates: internal/rates/rates.go, the price oracle; Rates/Rational: fractions and `ceilRat`;
--   Rates/CoinGecko: coingecko.go.
-- - Webhook: internal/webhook. Webhook/Signer is signer.go, Webhook/Dispatcher is dispatcher.go and
--   event.go, Webhook/InFlight the goroutines of `Emit` and `Close`.
-- - Store: internal/store. Store/Rows and Store/Sqlite are sqlite.go, Store/Open is store.go and
--   memory.go; Store/Calls and Store/Agrees compare the two repositories, Store/Behind and
--   Store/Issued the service over them.
-- - Watcher: internal/watcher.
-- - Auth: internal/auth.
-- - Api: internal/api and internal/qr. Api/Invoices is invoices.go, Api/Sandbox is sandbox.go,
--   Api/Serve is `authed` and the routes below /v1/; Api/Probes is the rest of server.go and
--   internal/version, Api/Handler the routes and middleware.go, Api/Refused and Api/Guarded
--   the routes for a request without a key.
-- - App: internal/app. Command: cmd/vexpay.
-- - Config: internal/config.
--
-- How the parts interact. The service takes a repository, a registry of adapters and an optional
-- pricer as records of functions over their own states; its operations are functions from a state
-- to a result and a new state, in which the events that the emitter was given are a list. The
-- clock, new ids and the world that adapters observe are arguments of each operation; a loop takes
-- them for each round. A lock of the source makes the method that holds it one step.
-- `Create` holds none: it is one function here, and in Invoice/Service/Safety, where operations
-- interleave, the counting of the index and the storing of the invoice are steps of their own too.
--
-- The API's handlers are functions from a request and the site (the service's state and the world)
-- to a response and a new site. A request whose time runs out is answered by the middleware, while
-- its handler goes on over a service whose calls may fail, since the context has ended. The simulator writes the ledger in the world and then syncs. The
-- oracle is a pricer whose state is its cache. `build_on` wires the parts over either store. The
-- deliveries of `Emit` are goroutines that take turns: a relation says which states they reach. The
-- watcher runs on a list of what its `select` finds ready.
--
-- Representation. A Go `string` is a list of bytes; `big.Int`, `time.Time` (nanoseconds since the
-- epoch) and `int` are integers; `uint32` counters wrap by `% 2 ^ 32`; a map is an association
-- list; an error is a constructor for the place that makes it, and its message is not modelled.
-- Fuel occurs in the printing of numerals: `digits n` runs on `n + 1`, and the reading back of
-- every numeral shows that this is enough. A delivery that is watched alone takes its attempts and
-- one turn more.
--
-- Not modelled: HTTP, JSON and SQL as such, logging, process set-up, hashing, key derivation and
-- QR rendering, which are libraries, and what a SQL statement does beyond its text; the HTTP
-- server's own goroutines; the PHP SDK and the dashboard page.
pub mod Common
pub mod Money
pub mod Chain
pub mod Invoice
pub mod Rates
pub mod Webhook
pub mod Auth
pub mod Store
pub mod Watcher
pub mod Api
pub mod App
pub mod Config
pub mod Command
