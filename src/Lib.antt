-- ===== src/Lib.antt =====
-- The server of Depsera: health polling, alerts, authorisation, manifests and dependency graphs.
--
-- The server polls the health endpoints of registered services, keeps what they report about their
-- dependencies, sends alerts on changes, keeps services in line with a
-- team's manifest, and draws the graph of services and dependencies.
--
-- Prelude, JsMap, Rows: Boolean tests, lists and membership over the native numbers; `Map<string, V>` as
-- an association list in insertion order; a table as the list of its rows.
-- Types: rows of server/src/db/types.ts.
-- Polling: server/src/services/polling. Breaker (CircuitBreaker.ts), Backoff (backoff.ts), Cache
-- (PollCache.ts), HostLimiter (HostRateLimiter.ts), States (PollStateManager.ts), Dedup
-- (PollDeduplicator.ts). HealthPollingService.ts is in Engine (its state and `syncServices`), Cycle
-- (`runPollCycle`) and Control (its public calls; Control.Stopped runs sequences of them).
-- ErrorHistory (ErrorHistoryRecorder.ts) keeps its table in the order of insertion.
-- Alerts: server/src/services/alerts. Flap (FlapProtector.ts), Limiter (AlertRateLimiter.ts), Dispatch
-- (`processEvent` of AlertService.ts).
-- Auth: server/src/auth/authorizationService.ts.
-- Manifest: server/src/services/manifest. Differ (ManifestDiffer.ts, where an
-- optional field of an entry is absent, null or given), Validator (ManifestValidator.ts over the
-- values that JSON.parse returns; its checks of an entry pass on the two lists of issues).
-- Manifest.Sync: server/src/services/manifest/ManifestSyncService.ts. Locks (`syncManifest` around the
-- pipeline that it awaits), Apply (`applyChanges`, whose transaction is an `Option`), Aliases
-- (`syncAliases`), Overrides (`syncCanonicalOverrides`), Result (`mergeResults`),
-- Associations (`syncAssociations`, without the branches for a failed write), PollingCalls
-- (`updatePolling`).
-- Drift: server/src/stores/impl/DriftFlagStore.ts, the table drift_flags as the list of its rows. The
-- identifiers are assumed unique, as a primary key, and those of new rows new.
-- Overrides: server/src/utils/dependencyOverrideResolver.ts and overrideResolver.ts; Contact has the
-- merge of contacts.
-- Grouping: server/src/utils/deduplication.ts.
-- Graph: server/src/services/graph. Row (the rows that the queries join), Inference
-- (ServiceTypeInferencer.ts), External (ExternalNodeBuilder.ts), Builder (DependencyGraphBuilder.ts),
-- Traverse (`traverseUpstream` of GraphService.ts), Service (the rest of it).
-- Examples: the theorems at concrete inputs.
--
-- State is passed explicitly: an operation takes the object and returns it with its result, and
-- what it emits or writes to the database is a list of events. The clock is an argument `now` in
-- milliseconds. A poll cycle is cut at its `await` into `begin_cycle` and `finish_cycle`, between which
-- anything may run; `Reach` lists what can happen in whatever order. A state of a service is an
-- object that a cycle holds while the map may get a new one: `ref` is its identity.
--
-- Numbers are natural numbers without a bound: times, counts and delays of the source are whole
-- doubles far below the point where those stop being exact. A difference of times is compared as a
-- sum. Every loop is recursion on its list but one: the search of Graph.Traverse runs
-- on fuel, a round for each row of a dependency and one more, since each round visits a new target.
--
-- Parameters: the host name of a URL, what the database returns, the outcome of a request, the
-- outcome of a send, JSON, the case of letters, the hash, and for the validator the URL parser, the
-- check of addresses and the two validators of schema configurations.
--
-- Not modelled: HTTP, SQL, logging, timers, the parsers of health endpoints, the wallboard, the routes
-- and the client.
pub mod Prelude
pub mod JsMap
pub mod Rows
pub mod Grouping
pub mod Types
pub mod Polling
pub mod Alerts
pub mod Auth
pub mod Manifest
pub mod Drift
pub mod Graph
pub mod Overrides
pub mod Examples
