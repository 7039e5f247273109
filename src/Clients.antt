-- ===== src/Clients.antt =====
-- app/clients.py: persistent clients, their identifiers, and the access policy.
pub mod Types
pub mod Identifiers
pub mod Labels
pub mod Store
pub mod Access
pub mod Enforcement
mod Tests
