-- ===== src/Exchange.antt =====
-- internal/exchange: one request and its response.
pub mod Body
