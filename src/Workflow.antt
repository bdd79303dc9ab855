-- ===== src/Workflow.antt =====
-- The executor of workflow graphs (src/trimum_core/workflow_engine.py).
pub mod Graph
pub mod Dag
pub mod Measure
pub mod Counts
pub mod Kahn
pub mod Visits
pub mod Texts
pub mod Toposort
pub mod Accepts
pub mod Engine
pub mod Invariant
pub mod Steps
pub mod Queue
pub mod Turns
pub mod Roots
pub mod Run
pub mod Final
mod Examples
