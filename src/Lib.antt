-- ===== src/Lib.antt =====
-- drew: the drew cryptographic library
--
-- The library offers block ciphers, modes, hashes, stream ciphers, MACs and key derivation behind tables
-- of functions. An algorithm works on arrays of machine words; include/util.hh reads and writes these as
-- bytes in either order, and its `CopyAndXor` adds a keystream to a message. A mode holds a keyed block
-- cipher and calls it through `impl/block/blockcipher.hh`; HMAC holds two hash objects, and PBKDF2 a
-- pseudorandom function, which HMAC is one of.
--
-- Files, and the code they are about:
--   Prelude        shared names; bit operations, lists and loops
--   Util/Rotate    include/util.hh: RotateLeft, RotateRight, the ternary functions, GetByte
--   Util/Endian    include/util.hh: Endian::Convert and Endian::Copy
--   Util/Memory    copies into arrays
--   Util/Keystream include/util.hh: CopyAndXor, the byte-at-a-time cipher it has to be equal to, and
--                  CopyAndXorAligned with xor_aligned of include/util.h
--   Block/Interface impl/block/blockcipher.hh: a keyed cipher object and its contract
--   Block/Feistel  the two halves that CAST-128 and Blowfish work on
--   Block/Fast     impl/block/blockcipher.hh: EncryptFast and DecryptFast
--   Block/Tea, Xtea, Rc2 the ciphers of impl/block/tea, impl/block/xtea and impl/block/rc2
--   Block/Cast5    impl/block/cast: CAST-128 with its tables and key schedule
--   Block/Cast6    impl/block/cast: CAST-256, with the round functions of CAST-128
--   Block/Seed     impl/block/seed: SEED
--   Block/Blowfish impl/block/blowfish: the cipher with its tables and key schedule
--   Hash/Template  impl/hash/hash.hh: Update, Pad and GetDigest over a compression function
--   Hash/Sha1      impl/hash/sha1: the compression function, its inverse, and the class on the
--                  template
--   Hash/Sha256    impl/hash/sha256: the same for SHA-256 and SHA-224
--   Hash/Sha512    impl/hash/sha512: the compression function of SHA-512 and SHA-384, and the classes
--                  on the template
--   Hash/Md4, Md5  impl/hash/md4, impl/hash/md5: the compression functions, and the classes on the
--                  template
--   Block/Shacal, Shacal2 impl/block/shacal/shacal.cc: SHACAL-1 and SHACAL-2, which encrypt with them
--   Stream/Rc4     impl/stream/rc4: the generator, the cipher on messages through CopyAndXor, and RC4 as it
--                  is published
--   Stream/Salsa20 impl/stream/salsa20: Salsa20 with the portable keystream
--   Stream/ChaCha  impl/stream/chacha: ChaCha in the same way, for nonces of 8 and of 12 bytes
--   Mac/Hmac       impl/mac/hmac/hmac.c: HMAC over the hash template, and RFC 2104 as its specification
--   Kdf/Prf        include/drew/kdf.h: what key derivation asks of a pseudorandom function
--   Kdf/Pbkdf2     impl/kdf/pbkdf/pbkdf2.c: PBKDF2 over any such function, over HMAC, and RFC 2898 as its
--                  specification
--   Mode/Status    include/drew/plugin.h: error codes
--   Mode/Offset    impl/mode/ctr.cc and ofb.c: the loops that both modes have
--   Mode/Ctr       impl/mode/ctr.cc: the context and its operations
--   Mode/Cbc       impl/mode/cbc.c: the context and both function tables
--   Mode/Cfb       impl/mode/cfb.c: the context, its operations in segments of any size, and
--                  cfb_encryptfast
--   Mode/Ofb       impl/mode/ofb.c: the context and both function tables, and the contexts that calls
--                  lead to
--
-- Conventions. A byte and a word are natural numbers; every operation of the code that wraps has its
-- `% 2 ^ w` written out, and states are assumed to be of bytes or words (`IsBlock`, `IsWords`) where
-- a theorem needs it. An array is a list; an object that the code changes in place is passed and
-- returned. The host is little-endian. The loops over whole buffers, blocks and segments take one
-- round of fuel for each byte of the message, and a round reads at least one byte. The block cipher
-- that a mode calls is a parameter with the contract of `BlockCipher`, which the ciphers fill by their
-- `cipher`; the hash template is over an `Algorithm`, which SHA-1, SHA-224, SHA-256, SHA-384, SHA-512,
-- MD4 and MD5 fill; PBKDF2 is over a `Prf`, which `hmac_prf` fills. What an array holds before the code
-- writes it is a parameter too.
--
-- Not modelled: the plugin glue, cloning and freeing, most variants for aligned buffers, those for
-- special instructions, and the algorithms that no file names.
pub mod Prelude
pub mod Util
pub mod Block
pub mod Hash
pub mod Stream
pub mod Mode
pub mod Mac
pub mod Kdf
