-- ===== src/Tests.antt =====
-- The theorems at concrete inputs, and the inputs.
mod Sample
mod LangfuseTests
mod AdapterTests
mod RunnerTests
mod MeasureTests
mod ConfigTests
mod DisplayTests
mod ReportTests
mod CommandTests
