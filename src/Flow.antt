-- ===== src/Flow.antt =====
-- internal/flow: flow-control windows, and the send half of a connection's flow control.
pub mod Window
pub mod Sender
