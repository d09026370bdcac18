-- ===== src/Aggregator.antt =====
-- internal/aggregator/aggregator.go: the trials of one scenario and model are summarised.
pub mod Stats
pub mod Summarize
pub mod Counts
pub mod Total
