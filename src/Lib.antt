-- ===== src/Lib.antt =====
-- The durable execution library `durare`: workflows whose steps are checkpointed in a store, so
-- that a run that stops is taken up again from its checkpoints. This library models the in-memory
-- state provider of the crate (src/memory.rs), method by method, the row and request types of the
-- provider interface and the draining of streams (src/provider.rs), the durable operations that a
-- workflow calls (src/context.rs), the core of the engine that creates, runs, recovers and claims
-- workflows (src/engine.rs), the client that enqueues without an engine (src/client.rs), the
-- collector of the debouncer (src/debounce.rs), and the result of a handle (src/handle.rs).
--
-- The parts and the files:
--   * Store: `std::collections::HashMap` as an association list in its iteration order. A real map
--     has an unspecified order; no theorem depends on which it is.
--   * Platform: what comes from other packages, as a parameter of everything below: JSON values,
--     instants and their conversions, foreign errors. The clock is an argument of the operations
--     that read it, and so is a fresh uuid.
--   * Error, Provider (Status, Workflow, Steps, Requests), Schedule, Queue: src/error.rs, the types
--     of src/provider.rs, src/schedule.rs and src/queue.rs. A result may be a panic, for `expect`
--     and for a step's closure.
--   * Memory: `Inner`, the tables behind the provider's one mutex. A method holds the lock from its
--     first read to its last write, so each is one function on `Inner`, under its own name:
--     Memory/Lifecycle (create, read, move, count recoveries), Memory/Manage (cancel, resume,
--     re-queue, delay), Memory/Dequeue (claiming from a queue), Memory/Steps (checkpoints),
--     Memory/Mailbox (notifications), Memory/Events, Memory/Streams, Memory/Delete, Memory/Fork,
--     Memory/Listing, Memory/Schedules, Memory/Versions, Memory/Queues. Memory/Collect is the
--     default garbage collection of src/provider.rs on it, with no other call between its own.
--   * Memory/Invariant and Memory/Valid: what holds of the tables between two calls, `IsValid`, and
--     the kinds of write that keep it. Memory/Calls: the provider as a state machine, with one
--     constructor for each method that writes, and reachability. Memory/Drain is `drain_stream` of
--     src/provider.rs. Memory/Steps/Refines states the step table as a map that is written once.
--   * Context: `step`, `step_with`, `durable_value`, `set_event`, the stream operations, `patch`
--     and `deprecate_patch` of src/context.rs, over the in-memory provider. A closure is a function
--     on the tables, which stands for all that is written while it runs. Each operation takes the
--     number it drew from the counter. Context/Messages: `sleep`, `send`, `recv`, `get_event` and
--     the durable deadlines. Context/Operation and Context/Program: what an operation promises, and
--     a workflow that calls one operation after another, with a run of it from any point.
--   * Engine: the options of a run and `Runtime`. Engine/Create: `insert_run` and
--     `start`. Engine/Spawn: `spawn_child` and `start_workflow`. Engine/Run: `run_to_completion`.
--     Engine/Recover: the recovery of pending workflows. Engine/Requests: resume, fork, cancel and delay as the engine
--     composes them from calls of the provider. Engine/Claim: one claim of the queue dispatcher for
--     a partition.
--   * Client: `enqueue`, `get_event` and `retrieve_workflow` of src/client.rs.
--   * Debounce: the collector of src/debounce.rs, over what its steps and receives return, and the
--     options that reach the debounced workflow.
--   * Handle: `terminal_to_result` and the polling loop of `result`.
--   * Base: the shared names, Boolean tests, lists over the native numbers, machine words and
--     sorting. Tests: a concrete platform, small states, and runs.
--
-- An `i32` or `i64` is an integer, and a sum that may leave its range is wrapped by `i32` or `i64`
-- (a release build; a debug build panics there). Only the search for the descendants of a deleted
-- workflow runs on fuel: one round for each given id and each stored row, and one to stop. A round
-- visits the next target, and a target is one of the given ids or a stored row that was none
-- before. Retries recurse on the retries left.
--
-- A loop that waits for others runs over a list of what it meets: the turns of `recv`, the passes
-- of `drain_stream`, the attempts of `start` and of the client's `enqueue`, the tables that a
-- polling handle reads, the rounds of the debouncer. An element holds the clocks and what other
-- calls write in between, as a function on the tables. A loop that has used up its list returns
-- none, which stands for one that still waits.
--
-- Re-queueing a row (`enqueue_existing`) with a deduplication id could give two rows one slot. The
-- engine calls it after a resume, which clears that id, so the call is a step of the state machine
-- only for a row without one.
--
-- Not modelled: the SQL providers, the conductor and the admin server (I/O, SQL and network), the
-- client's methods on schedules, the producer's side of the debouncer, the macros; of the engine,
-- the registration of workflows, the start and the shutdown of its background tasks, the polling
-- intervals, the firing of schedules, and the tracing spans; of the in-memory provider, the
-- aggregates, the export and import of workflows and the transactional step, which it refuses; of
-- the context, transactions, `select`, and the delay between two retries; of a handle, the await of
-- a local task.
mod Base
pub mod Store
pub mod Platform
pub mod Error
pub mod Provider
pub mod Schedule
pub mod Queue
pub mod Memory
pub mod Context
pub mod Handle
pub mod Engine
pub mod Client
pub mod Debounce
mod Tests
