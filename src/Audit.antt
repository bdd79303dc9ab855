-- ===== src/Audit.antt =====
-- The audit log as a chain of signed lines (src/trimum_core/audit_store.py and sec_monitor.py).
pub mod Chain
pub mod Store
pub mod Accepted
pub mod Growth
mod Examples
