-- ===== src/Tui.antt =====
-- crates/meta-text-tui: the terminal front end.
pub mod Commands
