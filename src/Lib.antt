-- ===== src/Lib.antt =====
-- PingMon, a distributed TCP availability monitor (Go): an agent probes targets and uploads results; a
-- supervisor hands out tasks, stores results in SQLite, aggregates old ones, tracks the connectivity of
-- the agents, and serves a dashboard from a cache. Paths below are from the repository's root.
--
-- The parts, and which file models which:
-- - Prelude: shared names, lists, signed integers (Int), Go strings as lists of code points with the
--   functions of `strings` and `strconv` that are called (Text), maps as association lists (Eq).
-- - Model: internal/model/model.go. An instant is a number of nanoseconds since Go's zero time, so
--   earlier instants are not modelled; a float64 is a type parameter.
-- - Config: internal/config/config.go. Defs has the structs, DefaultConfig, DefaultAgentConfig and
--   applyDefaults; Values the comments and values of the TOML subset; Toml the two parsers and the
--   setters; Load detectFormat, Load and LoadAgent. json.Unmarshal, os.ReadFile and os.Hostname are
--   parameters. Proofs: Defaults, Lines, Orphans.
-- - Supervisor/Connectivity: updateAgentConnectivity of cmd/supervisor/main.go, the state machine of an
--   agent (unset, checking, ok, failed), with children Lookup and Streaks.
-- - Supervisor/Cache: resultsCache of cmd/supervisor/main.go, with children Lookups, Bounds and Reads.
-- - Supervisor/Ranges: parseRangeDuration, rangeDuration, selectedRange, agentOfflineAfterSeconds.
-- - Supervisor/Reload: validateSupervisorConfig, watchConfig and applyReloadedConfig; a reload clears
--   the cache. Child Watch.
-- - Storage: internal/storage/storage.go. Stamps is the order of RFC3339Nano texts, by which SQLite
--   compares instants; Rows the tables; Retention RollupBefore, DeleteBefore, DeleteRollupsBefore and
--   cleanOldData (cmd/supervisor/main.go); Conservation and Rollups their proofs. The statements are
--   functions on lists of rows; strftime over unixepoch is a parameter, for an interval of a second or
--   longer.
-- - Storage/Store: the tables, seriesID with its cache, SaveResult and the loop of SaveResults, with
--   faults of the database as an argument; its child Operations has SaveResults, SaveAgentHeartbeat,
--   ListAgentStatuses and DeleteAgent. Proofs: Soundness, Filing and
--   Additions (the rows that a save adds), Statuses, Atomicity.
-- - Supervisor/Report: decodeReportPayload, validateReportResult, normalizeReport and handleReport, which
--   saves into the store, clears the cache, counts in the connectivity and broadcasts. Proofs: Checks,
--   Outcomes. encoding/json, and the tests for NaN and infinities, are parameters.
-- - Supervisor/Agents: handleAgents and handleDeleteAgent, which deletes from the store, forgets the
--   connectivity and clears the cache. Proofs: Views, Listing, and Prelude/Trim, which has the law of
--   TrimSpace that they need.
-- - Supervisor/Session: the cookies of the dashboard, handleLogin with setDashboardSession,
--   safeRedirectPath and requireAgentAuth. base64, HMAC and SHA-256 are parameters. Proofs: Cookies, and
--   Prelude/Decimal, which has strconv.Itoa.
-- - Storage/Stream: internal/storage/stream.go. The rows of a query in windows of six hours, newest first,
--   and a window in pages by a cursor, handed to a callback that may refuse. Proofs: Order (the order of
--   the query and its cursor), Pages, Windows, Since; Prelude/Sorting has WHERE and ORDER BY.
-- - Storage/Queries: the queries of internal/storage/storage.go that return lists, mergeResultsDesc, and
--   resultsSince of cmd/supervisor/main.go; which queries fail is an argument. Rows of one instant keep the
--   order of the table. Proofs: Merges.
-- - Storage/Migration: internal/storage/migrate.go, MigrateSQLiteDB. A table is absent, has the old columns or
--   the current ones; which statements fail is an argument. Proofs: Tables, Lossless, Repeats.
-- - Supervisor/Rows: cmd/supervisor/dashboard_cache.go, a result as JSON text. strconv.IsPrint and the texts
--   of floats and instants are parameters.
-- - Supervisor/Chart: cmd/supervisor/dashboard_stream.go. The aggregation of one series in buckets, and in
--   Aggregate the budgets of all series and dashboardResultsData. Proofs: Buckets, Series, Budgets,
--   Totals.
-- - Supervisor/Results: handleResults, writeDashboardResults and streamResultsSince of
--   cmd/supervisor/main.go, from the tables to the answer through the cache. json.Marshal of a list is a
--   parameter. Proofs: Replies.
-- - Supervisor/Hub: the websocket hub of cmd/supervisor/main.go. Steps is the relation of its goroutines'
--   steps, each under the lock, on one channel or on a connection; whether a write succeeds is free. Proofs: Invariant,
--   Closing.
-- - Agent: cmd/agent/main.go. Queue has appendPendingResults, uploadPendingResults, nextPollInterval and
--   the rounds of main; Backoff retrySeconds; Delivery and Cycles the proofs. The outcome of an upload
--   and of collectCycle are parameters.
-- - Agent/Probes: tcpPing of cmd/agent/main.go, with the dials and the end of the context as an argument.
--   Proofs: Counts.
-- - Agent/Workers: probeTasks of cmd/agent/main.go. Steps is the relation of the steps of its workers and its
--   dispatcher, and with them of the end of the context, in whichever order; the probe of a task is a parameter.
--   Proofs: Tasks, Batch, Progress.
-- - Agent/Address: fetchPublicIP and fetchAgentIP of cmd/agent/main.go, with its cache. What the endpoints
--   answer, and net.ParseIP, are arguments. Proofs: Lookups, Known.
-- - Agent/Requests: setBearerToken, normalizeBaseURL, fetchTasks, uploadResults and collectCycle of
--   cmd/agent/main.go. The HTTP client, net/url and encoding/json are parameters.
-- - Supervisor/Tasks: agentIdentityFromRequest, remoteIP, handleTasks behind requireAgentAuth, and handleReady
--   of cmd/supervisor/main.go. Proofs: Heartbeats.
-- - Exchange: an agent that fetches its tasks from a supervisor, over a network that may lose the request
--   or the reply. Tokens has the token on both sides, Sending the request and what
--   becomes of it, Fetching the whole exchange.
-- - Tests: runs on concrete inputs, and the theorems at inputs that meet their hypotheses.
--
-- Numbers: an int64 is a signed integer, with its wrap-around written out (`wrap64`) where a product can
-- leave its range (durations, backoff); counters and lengths are natural numbers. Each method that holds
-- a lock is one step. Go's random map order is the order of the association list.
--
-- Fuel: the eviction loop of the cache has one unit for each entry, the upload loop one more than the
-- number of pending results, a window of a stream one more than the number of rows, and a stream two more
-- than the number of full windows; all are proved to suffice. The buckets of a chart are counted down
-- from its budget, as in the source.
--
-- Not modelled: HTTP routing, the pages and the other handlers of net/http, the scan of the columns
-- of rows, the browser code, and log lines.
pub mod Agent
pub mod Config
pub mod Exchange
pub mod Model
pub mod Prelude
pub mod Storage
pub mod Supervisor
pub mod Tests
