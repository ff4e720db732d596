-- ===== src/Lib.antt =====
-- Verification library of the software engineering platform, for its Go backend.
--
-- Each part is a shallow embedding: a Go function is a function by clauses, a struct a record, an enum
-- a data type, a stateful operation takes the state and returns it, and what may run concurrently is
-- a step relation with its reachability.
--
-- * Health (backend/internal/runtime/health): the runtime's health monitor. `Health` has `NewConfig`,
--   `NewMonitor`, `Transition`, `Liveness`, `Readiness`, `Snapshot` and what they call. `Readiness`
--   holds the lock twice, so it is two operations, `readiness_begin` and `readiness_end`, between
--   which others may run. Clock readings and the state of a context are arguments.
--   Health.Lifecycle is about the state diagram, Health.Invariant about all operations together,
--   Health.Failures about counts of failed checks and staleness.
-- * App (backend/internal/runtime/app): the application runtime, which owns a monitor. App.Work has the
--   state, `Admit`, `release` and `Force`; App.Start has `Start` with its deferred cleanup;
--   App.Shutdown has the goroutine of `runShutdown`, cut where it waits or takes the lock, and the
--   step relation in which its steps interleave with admissions, releases, health checks and
--   requests to force. App.Startup, App.Safety and App.Progress are the proofs.
-- * Die (backend/die): the dependency intelligence engine. Die.Text and Die.Path have the text
--   functions (Go strings are lists of bytes), Die.Model the values of model.go, errors.go and
--   config.go, Die.Evidence, Die.Identity and Die.Normalize the normalization of graph input
--   (implementation.go), Die.Limits the analysis settings and queries (analysis_config.go), Die.Graph
--   the index with its integrity checks (analysis.go), Die.Direct the pages of neighbours (`direct` of
--   analysis_query.go) and Die.Impact the traversal (`Impact` of the same file). Die.Impact.Bounds,
--   Die.Impact.Stage, Die.Impact.Scan and Die.Impact.Reachability build up to Die.Impact.Report, which
--   is about whole answers. Die.Impact.Walks has the independent notion of a walk that the answers are
--   compared with.
-- * Repo (backend/service/repository): the contract of the repository service. Repo.Errors has the
--   neutral errors (errors.go), Repo.Values the values (model.go), Repo.Valid and Repo.Contract their
--   checks and constructors, Repo.Framing the canonical identity of an artifact, Repo.Profiles the
--   registry of profiles (implementation.go), Repo.Settings the limits (config.go).
--   An `Outcome` is a value or the error in its place.
-- * Scan (backend/service/repository/scan): the execution of scans, which uses Repo. Scan.Execute has
--   `execute` as a function of a `World`, the answers of everything that the flight meets, to the
--   events in their order and the outcome; its parts are named run_leased, run_session, run_begun
--   and run_started for how far the flight is. Scan.Publication has what it publishes,
--   Scan.Protocol an automaton on its events, Scan.Terminal and Scan.Outcomes its ends.
--   Scan.Flights has the callers that share a flight: `joinFlight`, `leaveFlight`, the end of
--   `runFlight` and `cancelFlight` are the steps of a relation, each under the lock.
--   Scan.Service has the other handlers, Scan.Analysis `NewAnalysisResult` with the search for
--   cycles of its dependencies.
-- * Lifecycle (backend/service/repository/lifecycle): the handlers that register, look up, list and
--   archive repositories. Lifecycle.Ends is about what they do and return.
-- * Memory (backend/service/repository/conformance): the reference store that `memoryService` keeps in
--   memory. Memory.Store has registrations, archivals, cancellations and lookups, Memory.Scans
--   executions, listings and exports, Memory.Paging the pages, Memory.Keys the keys of the maps.
--   Memory.Refines has the store as its callers see it, by scope and identifiers, and what is promised
--   of it; its children compare the two.
-- * Rie (backend/rie): the repository intelligence engines. Rie.Glob has the patterns of ignore files
--   and the expressions that `globExpression` makes of them, with Rie.Glob.Meaning as their meaning;
--   Rie.Rules has `compileRule`, `matchesRules` and what they call, Rie.Ignore the loading of rules and
--   `Execute` of the ignore engine (ignore/implementation.go), Rie.Run the run context and the
--   artifacts (artifact.go, config.go, model.go), Rie.Pipeline `Register` and `Run` (pipeline.go).
-- * Shared has names of the libraries, lists measured by native numbers, integers, Boolean tests.
--
-- Bounds and fuel: identifiers of admitted work wrap at 2^64. The goroutine of the shutdown needs no
-- fuel, each step of it moves to a later phase. The traversal recurs on what `MaxDepth` leaves, which
-- is the source's own limit (at most 4096, so its 32-bit depth does not overflow). Decimal digits
-- have a fuel of 20, enough for 64-bit integers. Counters of the traversal stay below their limits,
-- which fit in 64 bits; other counts of list lengths are not wrapped. The search for cycles has the
-- nesting of its visits as fuel, which the number of artifacts bounds. The loop over the parents of a
-- path has the length of the path as fuel; each parent is shorter. Page sizes of the reference store
-- are at least 1 and at most the configured maximum, so the end of a page does not overflow.
--
-- Taken as parameters: SHA-256 with its hexadecimal encoding, the configuration loader, the opener
-- of PostgreSQL, the observability service, the files that rules are read from, the packages encoding/json and
-- encoding/base64 (a `Codec` for page cursors), the digest of an inventory, UTF-8, `TrimSpace` and the
-- tables of the package unicode. The store, the admission controller, the preparer, the clock
-- and the contexts of a flight are its `World`. `path.Clean`, `sort` and maps are modelled as far as
-- the code uses them; a map is an association list or a function, and a sort is insertion sort.
--
-- Not modelled: texts of most error messages, nil receivers, logging and observability events, copies made
-- by accessors, JSON, durations of timers (a timer may fire at any step). In the
-- index and the queries: polls of the context, the summary of each graph with its reason codes, the
-- fingerprint. Of the dependency engine: strong components and cycles. Of the repository service: the
-- built-in profile, the adapters, and the checks that tests run against a store. Of the pipeline:
-- identifiers and times of a run, and the sections of the report that unmodelled engines write.
-- The persistence layer, the language engines, the other repository engines and the command line are
-- left out: they mostly call databases, parsers or the file system.
pub mod Shared
pub mod Health
pub mod App
pub mod Die
pub mod Repo
pub mod Scan
pub mod Lifecycle
pub mod Rie
pub mod Memory
