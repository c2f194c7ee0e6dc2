-- ===== src/Lib.antt =====
-- workflow-world: the Postgres World of the workflow runtime. Its storage keeps runs, steps, hooks and
-- waits as tables that an append-only event log drives: one operation, `create`, validates an event
-- against the run and the entity it is about, changes the entity's row by a guarded statement, and
-- appends the event. Start Hook admission, the retention class of a run's lineage and the liveness of
-- a delivery are functions that `create` calls.
--
-- The files and what they model:
--   Prelude, and its children: tests, lists, and tables as lists of rows with SELECT, UPDATE and
--     DELETE as functions.
--   Retention: src/run-retention-policy.ts, `resolveRunRetentionClass` and `retentionDeadlines`.
--     Its child Deadlines has the proof.
--   Storage.Schema: src/drizzle/schema.ts, the rows, and the bodies of the events.
--   Storage.World: what a call reads from elsewhere. The functions of @workflow/world are the fields
--     of `Sdk`, what is relied on of them the fields of `SdkLaws`; graphile's job table, the clock
--     and the calling context are fields of `World`.
--   Storage.Session: a database session as a state and error monad. A statement outside a
--     transaction stays when a later one raises, `transaction` takes its statements back. Session.Keeps
--     and Session.Posts have the rules for what an action keeps and what it returns with.
--   Storage.EventLog: `nextSlotId`, `allocateEventId`, `advanceFence`, `insertEventRow`,
--     `openEventSlots` and `insertRunWithCreatedEvent` of src/storage.ts.
--   Storage.Lineage: src/run-retention-resolution.ts.
--   Storage.StartHook, Storage.Admission: src/start-hook.ts.
--   Storage.Runs, Steps, Waits, Hooks, Takeover, Creation, Validate, Legacy: the branches and the
--     checks of `create` in src/storage.ts, with src/delivery-liveness.ts in Steps.
--   Storage.Create: `create` itself, composed of them, without and with the in-band fence.
--   Storage.Kept, with its children: a relation between stores that the statements keep is kept by
--     `create`. Statements lists the statements; Log, Entities, Tokens and Whole go through the
--     operations once. Isolation, Counts, EndedSteps, Endings, EndedRuns, Ended and
--     Starts apply it.
--   Storage.Slots, Numbered and FencedInsert: the allocation of slots, and an insert under a fence.
--   Storage.Examples: a small world, and the theorems at it.
--   StreamBlocks: src/stream-blocks.ts, `packStreamChunks` and `unpackStreamRow` on lists of bytes, and
--     the row that src/streamer.ts stores for a block. Encoding has the bytes of an entry, RoundTrip,
--     Packing, Bounds and Success the proofs, Examples a stream of two chunks.
--
--   Prelude.Entries: a JavaScript Map in the order of insertion.
--   Dispatch: what producers, deployments and the dispatcher agree on. Message is src/message.ts and the
--     functions of others, as the record `Wire`; Contract is src/dispatch-contract.ts; Timers is
--     src/timers.ts, with `moveDelayedJobsToTimers` on a list of job rows. Accounting and
--     Timers.Promotion have the proofs, Examples a message and its jobs.
--   Queue: src/queue.ts. Sending is `placeInvoke`, `addGraphileJob` and `queue`, Endpoint the checks of
--     `createQueueHandler`, Tasks `createTaskHandler` of an embedded runner. Sending.Placement and
--     Tasks.Equivalence have the proofs.
--   Dispatcher: src/dispatcher. Streaks, Fairness and Dedup are the three structures of dispatcher.ts;
--     Affinity and Delivery are `resolveAffinity`, `createRunLookup` and `dispatchMessage`; Address is
--     vqs-client.ts, Lease is lease.ts, Ownership the session of ownership.ts, from its
--     acquisition (Ownership.Acquisition) on, Handler is `makeHandler` of runner.ts. Delivery.Pinned,
--     Delivery.Rescheduled, Delivery.Quarantine and Handler.Outcomes have the proofs.
--   Recovery: what becomes of active runs whose delivery is lost. Reconcile is src/reconciliation.ts, on
--     the storage's tables and the dead letters; Boot is src/dispatcher/boot-recovery.ts, on those and
--     graphile's jobs and queues. Reconcile.Laws, Reconcile.Parked, Boot.Waves and Boot.Queues have
--     the proofs.
--   Expiry: src/retention.ts. Lineage says when a run may expire, Streams has the passes over the chunks,
--     Runs the one over the details; Streams.Kept, Streams.Exact and Runs.Kept have the proofs.
--
-- A job goes from Queue.Sending to the dispatcher's Handler or to Queue.Tasks; both ask the accounts of
-- Dispatch.Contract and put a message back through jobs of the same form. What the activation client,
-- the executor and the statements answer is a record, `Outside`; the claims, retries and keys of
-- graphile are its own, and a job here is what `addJob` is given. A dispatch runs alone, but the dedup
-- is a step relation whose steps interleave. Whole seconds are natural numbers.
--
-- One statement is one step, and a call of `create` runs alone: the interleaving of two calls between
-- statements is not modelled, so the retries after a slot collision have no effect here. A takeover
-- that finds another owner is retried as often as in the source, five times, which is the fuel of
-- `takeover`. The loops of the passes over expired rows run over their own limit of batches, which is
-- their fuel. A block is unpacked with its number of bytes as fuel, and each entry takes six or more.
-- Timestamps are natural numbers of milliseconds, serialized values opaque numbers.
--
-- Not modelled: the start and the stop of the runners, the HTTP clients and the control plane's client,
-- the streams' tables and notifications, the storage maintenance, migrations and configuration; in the
-- storage the reads for clients, payload filtering, the preload of a started run, the deprecated JSON columns and logging.
mod Prelude
pub mod Retention
pub mod Storage
pub mod StreamBlocks
pub mod Dispatch
pub mod Dispatcher
pub mod Queue
pub mod Recovery
pub mod Expiry
