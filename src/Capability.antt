-- ===== src/Capability.antt =====
-- What certificates and installed packages take away from an agent
-- (src/trimum_core/capability.py).
pub mod Block
pub mod Sources
pub mod Levels
pub mod Verdicts
mod Examples
