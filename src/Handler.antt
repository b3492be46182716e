-- ===== src/Handler.antt =====
-- internal/handler: the files that a prepared claim needs.
pub mod Senlib
pub mod Config
pub mod Cdi
