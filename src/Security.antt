-- ===== src/Security.antt =====
-- src/security: who an object belongs to.
pub mod Uid
