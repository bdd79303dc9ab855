-- ===== src/Patch.antt =====
-- The edit primitives (src/trimum_core/patch_ops.py): text lines, unified-diff hunks and their
-- application, and the snapshots of a session with their rollback.
pub mod Lines
pub mod Hunks
pub mod Splice
pub mod Apply
pub mod Session
pub mod Rollback
pub mod Anchor
mod Examples
