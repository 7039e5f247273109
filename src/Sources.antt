-- ===== src/Sources.antt =====
-- app/alderpointdns_compiler.py: the lists that are downloaded, what their lines say, and the counts.
pub mod Types
pub mod Line
pub mod Count
pub mod Collect
mod Tests
