-- ===== src/Deploy.antt =====
-- The deployment engine: crates/server/src/deploy, with the rows it keeps in
-- crates/server/src/store/deployments.rs and the health check of crates/server/src/health.rs.
pub mod Status
pub mod World
pub mod Action
pub mod Rows
pub mod Health
pub mod Lifecycle
pub mod Artifact
pub mod Releases
pub mod Execution
pub mod Verdict
pub mod Recall
