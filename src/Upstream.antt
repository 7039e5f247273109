-- ===== src/Upstream.antt =====
-- app/upstream_dns.py: the resolvers that queries are forwarded to, and their probes.
pub mod Types
pub mod Validate
pub mod Fields
pub mod Ready
pub mod Table
mod Tests
