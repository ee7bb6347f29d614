-- ===== src/Lib.antt =====
-- The request protocol of the native full-text index: every packed request that the addon takes from
-- JavaScript is checked, decoded, classified and admitted here before an engine sees it; and the queues
-- and the process-wide budget that requests and indexes go through.
--
-- The parts of the program, by the file of this library that models each:
--   Error     src/error.rs: error codes, errors and results. A message is kept as its format string,
--             constants filled in, beside the values that are formatted into it.
--   Float     the tests on f32 and f64 that the protocol makes, on bit patterns.
--   Text      UTF-8 texts as their bytes.
--   Cursor    `Cursor` of src/protocol.rs. A read takes the cursor and returns a value and the cursor
--             behind it; a failed read ends the request, so its cursor is dropped. Cursor/Reads says
--             how far each reader moves.
--   Query     search modes, options, expressions and their limits. Query/Structure is
--             `SearchStructureBudget` and `validate_search_structure`, Query/Options the check of the
--             options in src/request_validation.rs, Query/Wire `decode_search_expression`, Query/Scan
--             `scan_search_expression`; Query/Cost is an account of the scanner's figures that reads
--             the expression, Query/Agree and Query/Decoded compare the walks, Query/Fuel bounds them.
--   Filter    filter expressions: `decode_filter_expression`, and in Filter/Scan
--             `scan_filter_expression`; Filter/Cost and Filter/Agree as for queries.
--   Catalog   sort and aggregation requests of src/catalog.rs with `decode_catalog`; Catalog/Scan is
--             `scan_catalog`, Catalog/Validate `validate_requests`, Catalog/Shape
--             `check_aggregation_shape`, which Catalog/Shape/Exact and Catalog/Shape/Buckets are about.
--   Config    the configuration of an engine, `validate_config` and, in Config/Wire, `decode_open`,
--             `decode_inspect`, `decode_reset` and `decode_runtime_budget`.
--   Batch     `validate_batch_header` and `decode_batch`.
--   Request   search requests: `validate_search_admission` of src/request_validation.rs,
--             `decode_search` (Request/Wire), `classify_search` (Request/Classify), and what is read of
--             a request before it is decoded (Request/Header).
--   Trace     match traces: `validate_trace_admission` and `decode_trace`; Trace/Evaluate is
--             `TraceExpression::evaluate` of src/engine.rs; Trace/Sound is about its verdict, and
--             Trace/Leaves about the leaves it shows.
--   Queue     `BoundedQueue`, `QueueBudget` and `QueueWake` of src/native.rs. Queue/Expiry is
--             `inspect_and_take_expired`, Queue/Search the two queues of searches and what threads do to
--             them. Queue/Lanes is what their callers may think of them; Queue/Expired, Queue/Accounts,
--             Queue/Refines and Queue/Runs compare the two, Queue/Ends is about failure and the end.
--   Admission `RuntimeBudget` of src/native.rs and its reservations; Admission/Process is
--             `RuntimeBudgetState` with what opens, confirms, retains and drops an admission, and
--             Admission/Run what the indexes of a process do to it, one step after another.
--             Admission/Exact, Admission/Accounts, Admission/Safe, Admission/Held, Admission/Runs and
--             Admission/Stands are about it.
--   Identity  `identity_bytes` and `persisted_index_id` of src/engine.rs; Identity/Reads is about their
--             readers, Identity/RoundTrip about both.
--   Terms     `prefix_end` of src/engine.rs.
--   Telemetry `Ticket` of src/telemetry.rs and its counters; Telemetry/Balance, Telemetry/Ledger and
--             Telemetry/Runs are about any number of tickets.
--   Boundary  `PoisonState` and `run_stateless` of src/boundary.rs; Boundary/Poisoned is about panics.
--   Examples  packed requests, runs of the queues, and the theorems at concrete inputs.
--
-- How they interact: a request is a byte string. `classify_search` scans it without building it, to
-- pick a queue; later `decode_search` builds it and admits it. Both walk the same grammar with the same
-- limits, so that most of the work here is that the two walks agree. Every walk shares `Cursor` and
-- the structure budget; a budget goes into a reader and comes out beside its value.
--
-- Bounds and fuel. `usize` has 64 bits; `usize_max` is written out where the source checks or
-- saturates. The recursive walks run on fuel: 10 for queries and filters, whose depth check refuses
-- the ninth level below the root, and 34 for aggregations, whose requests nest 32 levels deep. Spent
-- fuel is an error that has no counterpart in the program. The queues count in a `usize` that wraps.
--
-- Steps. What runs under one lock is one step. So is the drop of a reservation in the runtime budget,
-- which releases its counters one after another without a lock; Admission/Process says why.
--
-- Not modelled: the rest of the engine, the loops of the runtime's threads and its registry, the collectors of
-- src/catalog.rs, what telemetry measures beside its counts of requests, and the
-- addon's glue. `f32` and `f64` arithmetic does not occur in the parts
-- modelled; comparisons are on bit patterns. Hash sets of names are lists of the names seen. The capacity
-- that a `Vec` reserves is not modelled.
pub mod Prelude
pub mod Error
pub mod Float
pub mod Text
pub mod Cursor
pub mod Query
pub mod Filter
pub mod Batch
pub mod Catalog
pub mod Config
pub mod Request
pub mod Trace
pub mod Queue
pub mod Admission
pub mod Identity
pub mod Terms
pub mod Telemetry
pub mod Boundary
pub mod Examples
