-- ===== src/Block/Seed/Tests.antt =====
-- The vectors of the source, and the theorem at one of them.
use drew.Prelude.{ℕ, ◌≡◌, refl, List, [], ◌∷◌, arith}
use drew.Prelude.Loops.{for_up}
use drew.Util.Rotate.{rotate_left, rotate_right, add_word, sub_word, get_byte}
use drew.Util.Endian.{copy_in, copy_out, load, store, host_load, host_store}
use drew.Block.Interface.{on_words}
use drew.Block.Feistel.{step}
use drew.Block.Seed.{
  g, f, generate_subkey, odd_key, even_key, calls, set_key, mask, encrypt_rounds, encrypt_words,
  encrypt, decrypt,
}
use drew.Block.Seed.Inverse.{seed_decrypt-encrypt}

abbrev key_1 : List ℕ
key_1 =
    0x47 ∷ 0x06 ∷ 0x48 ∷ 0x08 ∷ 0x51 ∷ 0xe6 ∷ 0x1b ∷ 0xe8 ∷ 0x5d ∷ 0x74 ∷ 0xbf ∷ 0xb3 ∷ 0xfd ∷ 0x95
    ∷ 0x61 ∷ 0x85 ∷ []

abbrev plain_1 : List ℕ
plain_1 =
    0x83 ∷ 0xa2 ∷ 0xf8 ∷ 0xa2 ∷ 0x88 ∷ 0x64 ∷ 0x1f ∷ 0xb9 ∷ 0xa4 ∷ 0xe9 ∷ 0xa5 ∷ 0xcc ∷ 0x2f ∷ 0x13
    ∷ 0x1c ∷ 0x7d ∷ []

vector_1 :
    encrypt (set_key key_1) plain_1
    ≡ 0xee ∷ 0x54 ∷ 0xd1 ∷ 0x3e ∷ 0xbc ∷ 0xae ∷ 0x70 ∷ 0x6d ∷ 0x22 ∷ 0x6b ∷ 0xc3 ∷ 0x14 ∷ 0x2c
      ∷ 0xd4 ∷ 0x0d ∷ 0x4a ∷ []
unfolding g f generate_subkey odd_key even_key calls set_key mask encrypt_rounds encrypt_words
    encrypt rotate_left rotate_right add_word sub_word get_byte copy_in copy_out load store
    host_load host_store on_words step for_up
vector_1 = refl

seed_decrypt-encrypt_example : decrypt (set_key key_1) (encrypt (set_key key_1) plain_1) ≡ plain_1
seed_decrypt-encrypt_example =
    seed_decrypt-encrypt (set_key key_1) plain_1 (record { size = refl; below = omega arith })
