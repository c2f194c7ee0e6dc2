-- ===== src/Dispatch.antt =====
-- The delivery of messages: the contract of src/dispatch-contract.ts, the held timers of
-- src/timers.ts, the queue of src/queue.ts and the dispatcher of src/dispatcher.
pub mod Message
pub mod Contract
pub mod Accounting
pub mod Timers
pub mod Examples
