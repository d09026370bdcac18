-- ===== src/Display.antt =====
-- internal/ui/display.go: the progress of a benchmark on a terminal.
pub mod Format
pub mod State
pub mod Start
pub mod Progress
pub mod Trials
pub mod Summary
pub mod Screen
pub mod Redraw
pub mod Shown
pub mod Sequence
pub mod Bars
pub mod Survival
pub mod Run
pub mod Grouping
