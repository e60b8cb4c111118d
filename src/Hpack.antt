-- ===== src/Hpack.antt =====
-- internal/hpack: header compression (RFC 7541).
pub mod Dynamic
pub mod Static
pub mod Integer
pub mod Codec
pub mod Decode
pub mod RoundTrip
