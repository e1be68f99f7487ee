-- ===== src/Core.antt =====
-- crates/meta-text-core/src/ipc/core.rs: the core service, which owns the state of a session.
pub mod State
pub mod Contacts
pub mod Messages
pub mod Groups
