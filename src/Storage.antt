-- ===== src/Storage.antt =====
-- src/storage.ts and the modules it calls: the event storage of one tenant.
pub mod Schema
pub mod World
pub mod Session
pub mod EventLog
pub mod Lineage
pub mod StartHook
pub mod Admission
pub mod Runs
pub mod Steps
pub mod Waits
pub mod Hooks
pub mod Takeover
pub mod Creation
pub mod Validate
pub mod Legacy
pub mod Create
pub mod Kept
pub mod Isolation
pub mod Endings
pub mod EndedRuns
pub mod Starts
pub mod Ended
pub mod EndedSteps
pub mod Counts
pub mod Slots
pub mod Numbered
pub mod FencedInsert
mod Examples
