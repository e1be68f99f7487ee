-- ===== src/Ipc.antt =====
-- The core protocol of crates/meta-text-proto/src/ipc.
pub mod Framing
pub mod Protocol
pub mod Validation
