-- ===== src/SelfUpgrade.antt =====
-- crates/server/src/self_upgrade.rs: which upgrade may start, the staged swap, and what the new
-- process does at its start.
pub mod Start
pub mod Run
pub mod Reconcile
pub mod Boot
