-- ===== src/Cli.antt =====
-- crates/keyvisor-cli/src/main.rs: the command line.
pub mod Defs
pub mod Tsv
pub mod Assuan
pub mod Pin
pub mod Control
pub mod Pending
pub mod Arguments
pub mod Options
pub mod Accepted
pub mod Console
pub mod Confirmed
pub mod Dialog
pub mod Secrets
pub mod Bounded
pub mod Echo
pub mod SentLines
pub mod Create
pub mod Created
pub mod Complete
pub mod Tables
pub mod Commands
pub mod Rows
pub mod Client
pub mod Exec
pub mod Supervised
pub mod Locations
pub mod Main
pub mod Removed
pub mod Configured
pub mod SaidLines
