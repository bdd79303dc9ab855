-- ===== src/Monitor.antt =====
-- The behaviour baseline (src/trimum_core/behavior_monitor.py): its records and operations, and
-- what is proved of its counters and of its window.
pub mod Commands
pub mod History
pub mod Counts
pub mod Window
mod Examples
