-- ===== src/Block/Blowfish/Tests.antt =====
-- The theorems on Blowfish at a key and a block of `blowfishtest`.
use drew.Prelude.{ℕ, ◌≡◌, refl, List, [], ◌∷◌, arith}
use drew.Prelude.Loops.{for_up}
use drew.Util.Endian.{IsBlock}
use drew.Block.Blowfish.{key_word, set_key, encrypt, decrypt}
use drew.Block.Blowfish.Inverse.{blowfish_decrypt-encrypt}

abbrev key_8 : List ℕ
key_8 = 0x01 ∷ 0x23 ∷ 0x45 ∷ 0x67 ∷ 0x89 ∷ 0xab ∷ 0xcd ∷ 0xef ∷ []

abbrev block_8 : List ℕ
block_8 = 0x11 ∷ 0x11 ∷ 0x11 ∷ 0x11 ∷ 0x11 ∷ 0x11 ∷ 0x11 ∷ 0x11 ∷ []

block_8-IsBlock : IsBlock 8 block_8
block_8-IsBlock = record { size = refl; below = omega arith }

second_key_word : key_word key_8 2 ≡ 0x01234567
unfolding key_word for_up
second_key_word = refl

blowfish_decrypt-encrypt_example :
    decrypt (set_key key_8) (encrypt (set_key key_8) block_8) ≡ block_8
blowfish_decrypt-encrypt_example =
    blowfish_decrypt-encrypt key_8 block_8 (omega arith) block_8-IsBlock
