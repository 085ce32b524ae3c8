-- ===== src/Lib.antt =====
-- The Klass API gateway: a backend that generates teaching media. A request for media becomes a
-- job in a Redis stream; a worker reads it and runs the workflow, which calls LLM providers and a
-- renderer and moves the generation through its statuses; what keeps failing goes to a dead-letter
-- stream, from where an administrator may retry it. What has been generated reaches the users by a
-- feed of recommendations.
--
-- The parts, and where they are modelled:
-- * Lifecycle (src/orchestrator/lifecycle.rs): the statuses and every table on them. A data type
--   for the enum, a function by clauses for each `match`. Lifecycle/Matrix compares the tables,
--   Lifecycle/Paths follows sequences of transitions, Lifecycle/Wire reads and writes statuses.
-- * Queue (src/queue): the texts in a Redis reply. Queue/Streams is `enqueue` of
--   redis_streams.rs and `read_messages` and `extract_messages` of worker.rs. Queue/Worker is the
--   loop of worker.rs: `check_circuit` is its head, `finish_entry` what a spawned task does with
--   the result of the workflow, both as state passing on the two atomics (`Breaker`) without another
--   task in between, with the Redis commands as a list in their order. Queue/Worker/Atomics has the
--   operations on the atomics one by one, and Atomics/Interleaved puts those of several tasks in any
--   order; Queue/Worker/Claim is `claim_pending`.
--   Queue/DeadLetter is dead_letter.rs, by the commands it issues.
-- * Providers (src/providers/mod.rs): errors, requests and responses. Providers/Router
--   (src/providers/router.rs) is the router: the loop of retries, the fallback and the counter of
--   failures, as state passing on the router and on an abstract world.
-- * Governance (src/governance/rate_limit.rs): the limits on calls of the LLM. The two tables are
--   lists of rows, and the SQL statements in the source are functions on them (RateLimit/Tables,
--   RateLimit/Buckets); `preflight_check` is the check before a call. RateLimit/Serving is what the LLM
--   steps make of its decision (src/llm/respond.rs; interpret.rs and draft.rs do the same), with the
--   answers of the cache and of the provider in the record `Call`. RateLimit/Counters sees the buckets
--   as counters, which the theorems on the check are about.
-- * Webhook (src/api/rest/media_webhook.rs, with the statements that it calls of
--   src/db/repositories/media_generations.rs): the callback that reports the end of a job, on the
--   rows of the table, where each statement may fail (`Faults`). Webhook/Signature is the whole
--   handler with the check of the signature.
-- * Auth (src/auth/middleware.rs): the limits on requests of a user and of a client, by the commands
--   that they issue to Redis and what they make of the answers. Auth/Principal is who makes a request:
--   the extractors on the header, which ask Auth/Tokens (src/auth/tokens.rs), the tokens as the rows of
--   their table. Auth/Tokens/Issued follows a token through calls, Auth/Bearer and Auth/Expiry say
--   which requests are let in.
-- * Orchestrator (src/orchestrator), on documents of serde_json, with writes that may panic (Json).
--   Orchestrator/Audit is
--   src/orchestrator/audit_trail.rs: the sanitizer of messages, the filter of contexts
--   (Audit/Context), the updates of the payload (Audit/Payload) and the service's operations
--   (Audit/Service, Audit/Service/Failures), each a function on the row that has the generation's id,
--   where there is one. A lock makes each operation one step; what fails or panics writes nothing.
-- * Orchestrator/Workflow (src/orchestrator/workflow.rs): `process` and its steps, which call the
--   audit trail, as effects on the row. The callbacks are a record of effects (`StepTraits`), which
--   theorems on the status take with the hypothesis `QuietSteps`: a callback leaves the status alone.
-- * Orchestrator/Submission (src/orchestrator/submission.rs): how a request becomes a generation, on
--   the rows of media_generations. Submission/Create is `create_or_reuse`, Submission/Regeneration is
--   `create_regeneration`. The record `Call` has what one call meets: its new id and time, the error
--   of each statement, and what other transactions commit between its statements. The lookup and the
--   unique index are functions on the rows. Submission/Reuse submits a request twice or lets two
--   submissions race, Submission/Blocked lets its generation end first, and Submission/Canonical reads
--   back the text that is hashed.
-- * Recommendation (src/recommendation): Personalization is personalization.rs, from the rows of a
--   teacher's activity to the signals. Aggregation is aggregation.rs: Aggregation/Selection ranks what
--   the system has generated, Aggregation/Summary selects it, Aggregation/Feed builds and orders the
--   feed, and Aggregation/Distribution summarizes what was distributed. Their inputs are rows that the
--   caller has read. Aggregation/Wanted and Aggregation/Contents say independently of the ranks what
--   the feed should hold; Distribution/Summed says it of the summary. Aggregation/Cycle is about the
--   order.
-- * Storage (src/storage/r2.rs): the categories, uploads and URLs, on the keys of the bucket.
--   Publication (src/media_gen/publication.rs) is `publish`, on the row, the tables and the bucket
--   (`Store`); the record `Replies` has what the clients and the database answer, and the tables are
--   written by the commit only. Publication/Success joins it to the workflow's view of the row.
-- * Pagination (src/db/pagination.rs): the query's numbers, on `i64`.
--
-- Prelude holds what these share: the native numbers, ℤ over them, 64-bit words with their
-- wrap-around, results, decimal texts with the proof that a number is read as it is printed, and
-- comparisons (Prelude/Order) with the stable sort by one (Prelude/Filter, Prelude/Sort).
-- Integers of the source are ℕ (unsigned) and ℤ (signed), with the wrap-around written out where
-- an operation may overflow; as in a release build, overflow wraps and does not panic.
-- Loops are structural recursion on the list or on the number of rounds left, so no fuel is used. A
-- database of type `jsonb` may reorder the members of an object, on which nothing depends.
--
-- Parameters stand for what is not in the repository: `Codec` for `String::from_utf8_lossy` (it
-- gives back the text whose bytes it reads), `lower` for `str::to_lowercase`, `Env` for floats,
-- errors of the HTTP client and the world, `WebhookEnv` and `Crates` for uuid, hmac, serde_json and
-- the hour that is added to a time, `Chrono` and `Decimals` for chrono and rust_decimal, with what
-- is relied on in `ChronoLaws` (no leap seconds, no time before the epoch) and `DecimalLaws`.
-- `AuditEnv` is what chrono, uuid and PostgreSQL do for the orchestrator, `TokenEnv` and
-- `SubmissionEnv` are SHA-256, lower case and the uuid parser, and `FeedEnv` is floats, serde_json and
-- the reading of times.
-- `FloatLaws` has what is relied on of floats: what is read from JSON is no NaN.
-- `Sorter` is `slice::sort_by`: it may panic where the comparison is not a total order, and is the
-- stable sort where it is. `Values` is `HashMap::into_values`, which gives the values in any order.
-- Replies of Redis, clock times and results of calls are arguments. Statements of the database on
-- the tables of Governance succeed, and its counters do not pass `bigint`.
--
-- Not modelled: the other SQL, HTTP and JSON, the Redis connection pool, logs and metrics; the
-- prompt texts of the LLM steps, and the validation of their documents (src/contracts, src/standards);
-- the choice of the output type and of the taxonomy (src/orchestrator/decision.rs,
-- src/recommendation/taxonomy.rs), which are scores in floats; prices and the ledger; request handlers
-- that only pass data on; start-up and configuration.
pub mod Prelude
pub mod Lifecycle
pub mod Pagination
pub mod Governance
pub mod Providers
pub mod Queue
pub mod Auth
pub mod Webhook
pub mod Json
pub mod Storage
pub mod Publication
pub mod Recommendation
pub mod Orchestrator
mod Tests
