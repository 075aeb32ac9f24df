-- ===== src/Kdf.antt =====
-- impl/kdf: key derivation.
pub mod Prf
pub mod Pbkdf2
