-- ===== src/Runner.antt =====
-- internal/runner: the trials of a benchmark are expanded and run.
pub mod Types
pub mod Outcome
pub mod Attempts
pub mod Trial
pub mod Expand
pub mod Pool
pub mod Run
pub mod Configured
