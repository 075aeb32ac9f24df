-- ===== src/Mac.antt =====
-- impl/mac: message authentication codes.
pub mod Hmac
