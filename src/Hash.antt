-- ===== src/Hash.antt =====
-- impl/hash: the template of the block-wise hashes, and the compression functions.
pub mod Template
pub mod Sha1
pub mod Sha256
pub mod Sha512
pub mod Md4
pub mod Md5
