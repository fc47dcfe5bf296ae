-- ===== src/History.antt =====
-- crates/keyvisor-agent/src/history.rs: the bounded signing history.
pub mod Defs
pub mod Codec
pub mod Canonical
pub mod Ops
pub mod Bounded
