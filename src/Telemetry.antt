-- ===== src/Telemetry.antt =====
-- internal/telemetry: what is sent of a trial, and the Langfuse adapter.
pub mod Types
pub mod Enrichment
pub mod Factory
pub mod Langfuse
