-- ===== src/Tox.antt =====
-- The Tox transport of crates/meta-text-backend/src/transport.rs: its per-friend outbox, its pending
-- friend requests, and what of both survives a restart (crates/meta-text-backend/src/tox_store.rs).
pub mod State
pub mod Outbox
pub mod Requests
pub mod Send
pub mod Store
