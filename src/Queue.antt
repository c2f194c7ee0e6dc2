-- ===== src/Queue.antt =====
-- src/queue.ts: the producer's half of the queue, and the runner of an embedded world.
pub mod Sending
pub mod Tasks
pub mod Endpoint
pub mod Examples
