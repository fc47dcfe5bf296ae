-- ===== src/Tpm.antt =====
-- crates/keyvisor-tpm: the boundary and the adapter over the TPM library.
pub mod Defs
pub mod Codec
pub mod Template
pub mod Validated
pub mod Encoding
pub mod Tss
pub mod Esapi
pub mod Generate
pub mod Sessions
pub mod Handles
pub mod Released
pub mod Leaves
pub mod Checked
pub mod Authorized
pub mod Generated
pub mod Connect
