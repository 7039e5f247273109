-- ===== src/Rules/Parse.antt =====
-- app/custom_rules.py: `parse_rule`.
pub mod Modifiers
pub mod Line
pub mod Sound
mod Tests
