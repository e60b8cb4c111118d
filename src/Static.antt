-- ===== src/Static.antt =====
-- internal/static: the files that a server answers with.
pub mod Request
pub mod Ranges
pub mod Path
