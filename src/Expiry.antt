-- ===== src/Expiry.antt =====
-- src/retention.ts: the passes that delete the streams and the details of runs that have expired.
pub mod Lineage
pub mod Streams
pub mod Runs
pub mod Examples
