-- ===== src/Adapter/Claude.antt =====
-- internal/adapter/claude.go: the events of the agent, and the parser that turns them into steps.
pub mod Event
pub mod Generation
pub mod Assistant
pub mod User
pub mod Parser
pub mod Safety
pub mod Groups
pub mod Command
