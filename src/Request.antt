-- ===== src/Request.antt =====
-- internal/request: what a request is, and which are malformed.
pub mod Fields
pub mod Parse
