-- ===== src/Ota.antt =====
-- internal/ota: updates over the air.
pub mod Version
