-- ===== src/Telemetry/Langfuse.antt =====
-- internal/telemetry/langfuse.go: the adapter's state, its batches, its retries and its trials.
pub mod Ingestion
pub mod Batch
pub mod Retry
pub mod State
pub mod Queue
pub mod Spans
pub mod Trials
