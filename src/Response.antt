-- ===== src/Response.antt =====
-- internal/response: what a handler writes, as frames.
pub mod Fields
pub mod Encoder
pub mod Writer
