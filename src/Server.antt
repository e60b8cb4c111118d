-- ===== src/Server.antt =====
-- internal/server: a connection.
pub mod Conn
