-- ===== src/Approvals.antt =====
-- One-shot approval requests (src/trimum_core/approvals.py): the stored record, the store's
-- operations, the declarative allow rules, and what is proved of them.
pub mod Request
pub mod Store
pub mod Ttl
pub mod Rules
pub mod Lifecycle
pub mod Runs
pub mod Safety
pub mod Uses
pub mod Listing
pub mod Claims
pub mod Faults
mod Examples
