-- ===== src/Block/Fast/Tests.antt =====
-- Three blocks of TEA asked for in one call: the last one is left out.
use drew.Prelude.{ℕ, ◌≡◌, refl, List, ◌++◌, length, replicate, arith}
use drew.Block.Interface.{BlockCipher}
use drew.Block.Tea.Inverse.{cipher, cipher-block_size}
use drew.Block.Fast.{odd, encrypt_fast, decrypt_fast, decrypt_fast-encrypt_fast}

abbrev tea : BlockCipher
tea = cipher (record { k0 = 1; k1 = 2; k2 = 3; k3 = 4 })

abbrev two_blocks : List ℕ
two_blocks = replicate 16 0x61

abbrev one_block : List ℕ
one_block = replicate 8 0x62

decrypt_fast-encrypt_fast_example :
    (length (encrypt_fast tea 3 (two_blocks ++ one_block)) ≡ length two_blocks)
    × (decrypt_fast tea 3 (encrypt_fast tea 3 (two_blocks ++ one_block)) ≡ two_blocks)
decrypt_fast-encrypt_fast_example =
    decrypt_fast-encrypt_fast tea 3 2 two_blocks one_block
      (odd (cipher-block_size (record { k0 = 1; k1 = 2; k2 = 3; k3 = 4 })) 1 refl refl)
      (rw (cipher-block_size (record { k0 = 1; k1 = 2; k2 = 3; k3 = 4 })) refl) (omega arith)
