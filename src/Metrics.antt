-- ===== src/Metrics.antt =====
-- internal/metrics: what is measured of one trial, and the fields that are aggregated.
pub mod Build
pub mod Consistency
pub mod Cost
pub mod Fields
