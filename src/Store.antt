-- ===== src/Store.antt =====
-- crates/keyvisor-agent/src/lib.rs: the records of the TPM-wrapped keys.
pub mod Defs
pub mod Names
pub mod Codec
pub mod Canonical
pub mod Ops
pub mod Saved
pub mod Listing
pub mod Listed
pub mod Deleted
pub mod Refinement
pub mod ListedNodes
