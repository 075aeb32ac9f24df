-- ===== src/Block/Xtea/Tests.antt =====
-- The vector of `xteatest`, and the theorem of Xtea/Inverse at a key and a block.
use drew.Prelude.{ℕ, ◌≡◌, refl, List, [], ◌∷◌, arith}
use drew.Prelude.Loops.{repeat}
use drew.Util.Rotate.{add_word}
use drew.Util.Endian.{IsBlock, load, store, host_load, host_store, copy_in, copy_out}
use drew.Block.Interface.{on_words}
use drew.Block.Xtea.{encrypt, decrypt, encrypt_words, round, mask_y, mask_z, scramble, set_key}
use drew.Block.Xtea.Inverse.{xtea_decrypt-encrypt}

abbrev key_16 : List ℕ
key_16 =
    0x27 ∷ 0xf9 ∷ 0x17 ∷ 0xb1 ∷ 0xc1 ∷ 0xda ∷ 0x89 ∷ 0x93 ∷ 0x60 ∷ 0xe2 ∷ 0xac ∷ 0xaa ∷ 0xa6 ∷ 0xeb
    ∷ 0x92 ∷ 0x3d ∷ []

abbrev block_8 : List ℕ
block_8 = 0xaf ∷ 0x20 ∷ 0xa3 ∷ 0x90 ∷ 0x54 ∷ 0x75 ∷ 0x71 ∷ 0xaa ∷ []

block_8-IsBlock : IsBlock 8 block_8
block_8-IsBlock = record { size = refl; below = omega arith }

xtea_vector :
    encrypt (set_key 32 key_16) block_8 ≡ 0xd2 ∷ 0x64 ∷ 0x28 ∷ 0xaf ∷ 0x0a ∷ 0x20 ∷ 0x22 ∷ 0x83 ∷ []
unfolding encrypt encrypt_words round mask_y mask_z scramble set_key repeat add_word on_words
    copy_in copy_out load store host_load host_store
xtea_vector = refl

xtea_decrypt-encrypt_example :
    decrypt (set_key 32 key_16) (encrypt (set_key 32 key_16) block_8) ≡ block_8
xtea_decrypt-encrypt_example = xtea_decrypt-encrypt (set_key 32 key_16) block_8 block_8-IsBlock
