-- ===== src/Config.antt =====
-- internal/config/config.go: the configuration of a benchmark.
pub mod Types
pub mod Defaults
pub mod Validate
pub mod Secrets
pub mod Bounds
pub mod Accepted
