-- ===== src/Dsse.antt =====
-- internal/dsse: the bytes that are signed.
pub mod Pae
mod Tests
