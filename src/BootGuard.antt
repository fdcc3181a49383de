-- ===== src/BootGuard.antt =====
-- crates/bootguard: the self-upgrade journal, the boot-attempts counter, the swap of `current`, and
-- the guard that systemd runs before each start. A directory is the content of the three names
-- under it; an operation on it may fail before its rename or at the directory sync behind it.
pub mod Journal
pub mod Dir
pub mod Guard
