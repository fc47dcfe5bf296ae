-- ===== src/Agent.antt =====
-- crates/keyvisor-agent/src/main.rs: the agent process, its connections and its control socket.
pub mod Defs
pub mod Connections
pub mod Serve
pub mod Serving
pub mod Pending
pub mod Control
pub mod Authorize
pub mod Exchange
pub mod Handle
pub mod Signing
pub mod Recorded
pub mod PinEntry
pub mod Sockets
pub mod Binding
pub mod Guards
pub mod Locations
pub mod RequestIds
pub mod Monitor
pub mod Delivered
