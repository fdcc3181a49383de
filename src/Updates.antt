-- ===== src/Updates.antt =====
-- crates/server/src/updates.rs: comparing versions, choosing the release to advertise, and the
-- update checker over its recorded settings.
pub mod Version
pub mod Ladder
pub mod Checker
