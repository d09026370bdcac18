-- ===== src/Report.antt =====
-- internal/report/report.go: the files that a run leaves.
pub mod Summaries
pub mod Markdown
pub mod Write
pub mod Groups
pub mod Contents
pub mod Returned
