-- ===== src/Server.antt =====
-- madt-server/madt-server.h and madt-server.cpp: the server of the MADT protocol.
pub mod State
pub mod Leases
pub mod Auth
pub mod Queries
pub mod Sound
pub mod Tabs
pub mod Control
pub mod Dispatch
pub mod Rules
pub mod Responses
pub mod Stream
pub mod Replay
pub mod Stable
pub mod Ownership
pub mod Kept
pub mod Expiry
pub mod Closing
pub mod Authority
pub mod Steps
