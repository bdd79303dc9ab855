-- ===== src/Security.antt =====
-- The decision centre (src/trimum_core/security_rule.py), over the policy, the behaviour monitor,
-- the resource limits and the approval store.
pub mod Rule
pub mod Decisions
pub mod Access
mod Examples
