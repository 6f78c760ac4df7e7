-- ===== src/Lib.antt =====
-- fx-quotes: a service that takes orders to refresh a currency pair's rate, keeps them in a
-- PostgreSQL queue, lets workers lease and finish them, and serves the last completed quote.
--
-- Parts and their files (paths from the repository's root):
--   Prelude            numbers, lists, results, and integers over the native numbers
--   Text               Go's `strings` functions on texts (lists of code points), UTF-8
--   Entity.Pair        internal/entity/currency.go, pair.go: ParseCurrency, ParsePair, String
--   Entity.Rate        internal/entity/rate.go: ParseRate, allDigits
--   Entity.Update      internal/entity/quote.go, update.go
--   Usecase.Commands   internal/usecase/quote/commands.go, errors.go
--   Usecase.Retry      internal/usecase/quote/retry.go: Delay as `delay`, and its loop
--                      once more on 64-bit words as `grow_int64`
--   Usecase.Service    internal/usecase/quote/service.go, provider.go, ports.go: ProcessNextUpdate as
--                      `process_next_update`, over any store
--   Postgres.Schema    internal/adapter/postgres/migrations/001_quotes.sql: tables, constraints
--   Postgres.Tx        transactions, commits that fail or whose answer is lost, UPDATE
--   Postgres.Row       internal/adapter/postgres/row.go: scanUpdate
--   Postgres.Store     internal/adapter/postgres/store.go: CreateOrGet, GetUpdate, GetLatest
--   Postgres.Queue     internal/adapter/postgres/queue.go: ClaimNext, Retry, Fail; Complete in
--                      Queue.Completion, RecoverExpired in Queue.Recovery
--   Postgres.Steps     the calls as steps of one database, and runs of them
--   Postgres.Effect    what a step may do to the table; Evolution, Invariant, Lifecycle, Fencing and
--                      Latest reason about runs through it
--   Postgres.Claim     which row a claim takes; Postgres.Idempotency: admission with a used key;
--                      Postgres.ReadBack: a read of what admission has answered
--   Postgres.Worker    the PostgreSQL store as the service's store, and passes of a worker
--   Frankfurter        internal/adapter/frankfurter/provider.go: FetchRate as `fetch_rate`, the class of
--                      its failures, the wait it asks for, and the decoded quote; New in
--                      Frankfurter.Client
--   Postgres.UpdateId  internal/adapter/postgres/store.go: newUpdateID
--   Postgres.Migrate   internal/adapter/postgres/migrate.go: applyMigration, runMigrations
--   Pool               internal/adapter/worker/pool.go: New, Notify, recoverExpiredUpdates as
--                      `after_recover`, and the goroutines of Run as a step relation; the fields of
--                      logError, and of logFailure of cmd/fx-quotes/main.go, in Pool.Log, over
--                      the trees of wrapped errors of Pool.GoError
--   Http.Request       internal/adapter/httpapi/request.go; Http.Response: response.go; Http.Dto:
--                      dto.go; Http.Router: `route` of router.go
--   Http.Handler       internal/adapter/httpapi/handler.go, and serveHTTP of router.go
--   Http.Middleware    internal/adapter/httpapi/middleware.go
--   Http.Admission     what the handler of a POST lets through to the service, and how it refuses
--                      the rest
--   App.Api            the handlers over the use case over the PostgreSQL store
--   App.Config         internal/app/config/config.go: LoadFromLookup as `load_from_lookup`
--   App.Build          internal/app/app.go: Build
--   App.Lifecycle      internal/app/lifecycle.go: serve; Run of app.go; readiness.go; run of
--                      cmd/fx-quotes/main.go
--   Examples           tests, and instances of the theorems
--
-- State. `Db` is the contents of the two tables and the next value of the identity column. An
-- operation of the store takes the database and its environment, and gives the database and a
-- result: `CreateIo` and `CompleteIo` hold the faults of the driver's calls, `Clock` the readings of
-- the clocks, a predicate the rows that other transactions hold locked, `Commit` the end of a
-- transaction, which may take effect without an answer. One transaction is one step: admission
-- holds an advisory lock, and the other statements lock the rows they change. A run is any sequence
-- of such steps, so any interleaving of handlers and workers of any number of replicas.
--
-- The pool of workers is one state: whether its context has ended, the tokens of `wakeup`, where the
-- recovery stands, and where each worker stands. A step is a step of one goroutine; notifications
-- and the end of the context come from outside. `Run`, `serve` and `run` of the process are the
-- sequence of what they do to the parts.
--
-- How the parts interact: `serve_http` calls the use case through `Api`, which `service_api` fills
-- with the use case's service, which `worker_service` fills with the PostgreSQL store; the id that
-- `new_update_id` makes goes into the location that the client asks for. `Build` gives the numbers
-- of a loaded configuration to the pool, the provider's client and the server.
--
-- Bounds. No definition runs on fuel but `grow` and `grow_int64`, whose fuel is the number of rounds
-- of the loop, and `itoa`, whose fuel of 20 is enough for the digits of 64 bits. Instants and durations are numbers
-- of nanoseconds; the 64-bit hash wraps around as written. Durations of the retry policy and of the
-- pool's configuration may be zero or negative, attempts may not.
--
-- Parameters. `numeric` is the database's cast of a text to NUMERIC(30,15), printed again, and
-- `scan_uuid` the driver's parse of a UUID. `Parsers` holds the parsers of JSON and of dates that
-- the provider's client calls, and `FetchIo` the ends of its contexts and the response.
-- `Http.Handler.Library` holds the JSON decoder, the parsers of media types and queries and the
-- printing of times; `App.Config.Library` the parsers of durations, URLs and IP addresses and the
-- printing of a URL. Random bytes, faults and the order of events are arguments.
--
-- Not modelled: the embedded OpenAPI document and the fixture of the
-- provider; contexts' deadlines beyond whether they have ended; indexes, connection pools, and
-- logging but for the fields of errors and the entry of a request; the texts of errors.
mod Prelude
pub mod Text
pub mod Entity
pub mod Usecase
pub mod Postgres
pub mod Frankfurter
pub mod Pool
pub mod Http
pub mod App
mod Examples
