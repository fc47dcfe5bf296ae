-- ===== src/Files.antt =====
-- The file system calls of the standard library that the stores use, with injected failures, and
-- the write to a temporary file that a rename commits.
pub mod Paths
pub mod Defs
pub mod Atomic
pub mod Private
pub mod Save
pub mod Environment
