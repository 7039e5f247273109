-- ===== src/Clients/Enforcement/Agreement.antt =====
-- The compiled policy against `evaluate_access`, for queries over DoH that carry a ClientID.
