-- ===== src/Tarl.antt =====
-- The lines of key and value pairs in which agents speak (src/trimum_core/tarl_parser.py).
pub mod Lines
pub mod Strips
pub mod Fields
pub mod Sorted
pub mod Merge
pub mod Match
pub mod Messages
pub mod Best
mod Examples
