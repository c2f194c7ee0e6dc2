-- ===== src/Dispatcher.antt =====
-- src/dispatcher: the process that claims the messages of all tenants and delivers them to their
-- deployments.
pub mod Streaks
pub mod Fairness
pub mod Dedup
pub mod Address
pub mod Lease
pub mod Ownership
pub mod Affinity
pub mod Delivery
pub mod Handler
pub mod Examples
