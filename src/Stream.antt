-- ===== src/Stream.antt =====
-- impl/stream: the stream ciphers.
pub mod Rc4
pub mod Salsa20
pub mod ChaCha
