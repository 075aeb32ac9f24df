-- ===== src/Block.antt =====
-- impl/block: the interface of the block ciphers and the ciphers.
pub mod Interface
pub mod Fast
pub mod Feistel
pub mod Tea
pub mod Xtea
pub mod Rc2
pub mod Seed
pub mod Cast5
pub mod Cast6
pub mod Blowfish
pub mod Shacal
pub mod Shacal2
