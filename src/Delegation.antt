-- ===== src/Delegation.antt =====
-- Tasks that an agent hands to a child agent (src/trimum_core/delegation.py).
pub mod Plan
pub mod Child
pub mod Tools
pub mod Bounds
pub mod Outcomes
mod Examples
