-- ===== src/Net.antt =====
-- crates/meta-text-backend/src/network.rs: the peer-to-peer TCP transport.
pub mod Frame
pub mod Peers
pub mod Sending
pub mod Keys
pub mod Dispatch
pub mod Connection
