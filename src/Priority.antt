-- ===== src/Priority.antt =====
-- internal/priority.
pub mod Pending
