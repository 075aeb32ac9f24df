-- ===== src/Mode.antt =====
-- impl/mode: modes of operation over any block cipher.
pub mod Status
pub mod Offset
pub mod Ctr
pub mod Cbc
pub mod Cfb
pub mod Ofb
