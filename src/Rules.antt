-- ===== src/Rules.antt =====
-- app/custom_rules.py, the custom filtering rules.
pub mod Types
pub mod Regex
pub mod Parse
pub mod Evaluate
pub mod Active
pub mod Rpz
pub mod Store
