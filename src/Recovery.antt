-- ===== src/Recovery.antt =====
-- How active runs whose delivery is lost are settled, parked or delivered again.
pub mod Reconcile
pub mod Boot
pub mod Examples
