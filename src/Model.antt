-- ===== src/Model.antt =====
-- internal/model: the data that the components exchange.
pub mod Value
pub mod Trial
pub mod Summary
pub mod Status
