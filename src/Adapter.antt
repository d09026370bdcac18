-- ===== src/Adapter.antt =====
-- internal/adapter: how an agent's command line is run and how its output is read.
pub mod Types
pub mod Steps
pub mod Exec
pub mod Claude
pub mod Codex
pub mod Cursor
pub mod Opencode
pub mod Lines
pub mod Fake
pub mod Factory
