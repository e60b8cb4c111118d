-- ===== src/Stream.antt =====
-- internal/stream: the streams of one connection, their states, and the table of them.
pub mod State
pub mod Table
