-- ===== src/Systemd.antt =====
-- crates/server/src/systemd.rs: the layout of a service's releases, which releases a sweep removes
-- and a rollback picks, and what is written for systemd.
pub mod Paths
pub mod Retention
pub mod Escape
pub mod Service
pub mod Sorted
pub mod Unit
