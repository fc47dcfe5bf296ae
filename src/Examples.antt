-- ===== src/Examples.antt =====
-- The theorems at concrete inputs.
pub mod Agent
pub mod Stores
pub mod Histories
pub mod Encodings
pub mod Settings
pub mod CommandLine
pub mod Signing
mod Library
pub mod Keys
mod Commands
mod Sockets
