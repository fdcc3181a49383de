-- ===== src/Api.antt =====
-- Calls of the API that start deployments, and the pages of its lists:
-- crates/server/src/api/deployments.rs, `start_deploy` of crates/server/src/deploy.rs,
-- `create_deployment` of crates/server/src/store/deployments.rs and the pages of
-- crates/server/src/store/mod.rs.
pub mod Deployments
pub mod Pages
