-- ===== src/Protocol.antt =====
-- crates/keyvisor-agent/src/protocol.rs: requests and responses of the SSH agent protocol.
-- `usize::try_from(u32)` cannot fail, since `usize` has at least 32 bits on the supported targets.
pub mod Defs
pub mod Strings
pub mod Requests
pub mod Mpints
pub mod Signatures
pub mod Identities
