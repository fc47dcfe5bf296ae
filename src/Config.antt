-- ===== src/Config.antt =====
-- crates/keyvisor-agent/src/config.rs: the settings and their text file.
pub mod Defs
pub mod Settings
pub mod File
pub mod Ops
pub mod Saved
