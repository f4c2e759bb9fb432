-- ===== src/Lib.antt =====
-- A model of the server template in Go: todos, reports that a background queue generates,
-- authentication, and the platform packages under them, with proofs about them.
--
-- The program is a modular monolith. HTTP middleware finds out who sends a request and puts a
-- principal into its context; the services of the domains check it and work on a store; an error
-- goes back to one error handler, which maps it to a status. CreateReport writes a pending report
-- and enqueues a job. A worker takes the job and calls Generate, which claims the report for the
-- time of a lease, asks the todos for a summary, and completes the report, fails it or gives it
-- back. ReconcilePending enqueues again what was left over. A job that fails is tried again later,
-- up to a number of attempts.
--
-- Files, and the code that each is about:
--   Base            Boolean tests, lists, instants and durations, decimal numerals
--   Table           Go maps as association lists
--   Errors          error values: internal/platform/httpx/errors.go, internal/reports/domain.go
--   Op              functions that return (T, error), with a state
--   Authn           internal/platform/authn/principal.go, internal/platform/authz/authz.go
--   Moves           two-state invariants of operations, one rule for each way to build one
--   Follows         an operation that does on a view of the state what another does, with its rules
--   Sql             statements on a table as a list of rows: one row, updates, deletions, failures
--   Config          internal/platform/config/config.go: the record and Validate; Load in
--                   Config/Load; what is known of a loaded configuration in Config/Checked
--   Reports         internal/reports: Domain (domain.go), Store (store.go), Fake (fake_store.go),
--                   Service (service.go). Contract tells the port field by field, on its own; Spec
--                   tells it as a map from ids to rows with the row functions of the in-memory
--                   store. Fake/Laws and Fake/Keys have its rows and ids, Fake/Implements is about
--                   it under Contract. Lifecycle is the step relation of one row, Store/Evolution
--                   and Service/Evolution relate the operations to it. Service/Outcome is the pure
--                   function that Generate computes; the other modules under Service are named for
--                   what they show. Reports/Postgres has the rows of internal/reports/postgres,
--                   Queries its reports.sql.go, Store its store.go; Laws and Port are about this
--                   store under Spec. Reports/Api (api/api.go) and
--                   Reports/Web (web/web.go) have the handlers
--   Jobs            internal/platform/jobs/jobs.go; Pick, Attempts, Process and Runs on one call of
--                   processOne, Budget and Serving on sequences of calls; Loop has Run
--   Events          internal/platform/events/events.go; Delivery under it
--   Todos           internal/todos: domain.go and store.go; Todos/Fake (fake_store.go) and
--                   Todos/Service (service.go); Todos/Laws relates the two to a partial map.
--                   Todos/Queries (postgres/todos.sql.go) and Todos/Postgres (postgres/store.go), with
--                   the service over either store in Agreement and Histories. Todos/Api
--                   (api/api.go) has the handlers; Statuses under it. Todos/Web (web/web.go)
--                   has the pages; Answers and Messages under it
--   Auth            internal/auth: the port of service.go; Auth/Service (service.go) and
--                   Auth/Middleware (middleware.go); Credentials, Requests and Logins under it.
--                   Auth/Queries (postgres/auth.sql.go) and Auth/Postgres (postgres/store.go), with
--                   the way from a registration to a request in Journeys. Auth/Api (api/api.go)
--                   has the handlers; Logout under it. Auth/Web (web/web.go) has the login
--                   page, with the way from it to the next request in Journey; Auth/Tokens
--                   follows a CSRF token from a page to the middleware
--   Httpx           MapError, errorPage and ErrorHandler of internal/platform/httpx/errors.go;
--                   Httpx/Disclosure on what an answer tells; Httpx/Answer on what a handler
--                   returns; Httpx/Flash (flash.go beside it), Httpx/Form (form.go), Httpx/Render
--                   and Httpx/Functions (render.go), Httpx/Operations (readiness, metrics and
--                   CORS in server.go); Httpx/Cookies on what a browser holds, Httpx/Shells on what
--                   all pages share
--   Logging         internal/platform/logging/logging.go; Traces under it
--   Metrics         internal/platform/metrics/metrics.go; Counts and Failures under it
--   App             internal/app/app.go: the adapters, handlers and services that New puts together,
--                   over one state; Stores, Wiring, Delivery and Journey under it. App/Steps is the
--                   program as a step relation; Sound and Safety are about its runs; Loops has what
--                   Start and StartWorkerOnly leave running, Routes the tables of routes
-- A module Tests runs the definitions on examples and applies the theorems to them.
--
-- Names are the source's in snake case: ListReportsByOwner is list_reports_by_owner. A method's
-- receiver is its first argument. A method that works on the store is an Op: it takes the state and
-- gives a result and the state after it, beside an error too. Service code works on any state and
-- any store, so that every failure of a store is covered; laws of a store are hypotheses where a
-- theorem needs them.
--
-- What comes from outside is an argument: each reading of the clock, new ids, random bytes, bcrypt,
-- SHA-256, json.Marshal, uuid.Parse and String, the parsers of strconv and time, and the functions of
-- the strings package. Instants are natural numbers of nanoseconds, durations are integers; counts of
-- rows and attempts are natural numbers. Neither overflows here: the source's int64 holds centuries.
-- Loops are recursions on lists. Only `decimal` runs on fuel: n + 1 steps are enough for the digits
-- of n, since each step divides by ten.
--
-- SQL is written as functions on the list of rows of a table, in the order of insertion; each
-- statement may fail and then changes nothing, and which rows other transactions hold is an argument.
-- An update of a row by its id is taken to be atomic. INSERT keeps the primary keys of the tables of
-- todos, reports and auth, and in auth also the unique columns and references, of sql/migrations. The
-- key of platform.jobs is not checked: a theorem that needs it asks that the id of a new job is new.
-- TIMESTAMPTZ keeps microseconds, and the model passes every instant on as it is: instants that go
-- through a table are taken to be whole microseconds. ORDER BY leaves rows of one instant in the
-- order of the list, which Postgres does not promise; no theorem depends on it.
--
-- A handler of a page works on the state of the services and on an exchange: what it reads of the
-- request, the cookies that it sets and the response. A template's output is a function of its name
-- and its data, and may break off with an error. A response is written once by a handler, and
-- headers other than cookies are left out.
--
-- A run of the program is a sequence of calls, each with its own readings of the clock, new ids and
-- failures of the database; calls of authentication may do anything to its tables.
--
-- Not modelled: log lines but for those of the HTTP middleware; loading templates; how echo matches
-- a path, and in server.go what configures echo; timers, of which only the ticks are seen; mutexes,
-- since a call runs alone here; opening the database, the rest of start-up, and shutdown; the
-- vendored packages.
pub mod Base
pub mod Table
pub mod Errors
pub mod Op
pub mod Authn
pub mod Moves
pub mod Config
pub mod Reports
pub mod Jobs
pub mod Events
pub mod Todos
pub mod Auth
pub mod Httpx
pub mod Sql
pub mod Follows
pub mod Logging
pub mod Metrics
pub mod App
