-- ===== src/Block/Cast5/Tests.antt =====
-- The vectors of `cast5test`, and the theorem of Cast5/Inverse at a key and a block.
use drew.Prelude.{ℕ, ◌≡◌, refl, List, [], ◌∷◌, take, arith}
use drew.Prelude.Loops.{for_up}
use drew.Util.Rotate.{rotate_left, add_word, sub_word, get_byte}
use drew.Util.Endian.{IsBlock, load, store, host_load, host_store, copy_in, copy_out}
use drew.Block.Interface.{on_words}
use drew.Block.Feistel.{step, swap}
use drew.Block.Cast5.{
  encrypt, decrypt, encrypt_words, encrypt_rounds, sixteenth, three_rounds, f1, f2, f3, item,
  set_key, compute_subkeys, sixteen_subkeys, compute_z_set, compute_x_set, compute_subkey_set_a,
  compute_subkey_set_b, sub_byte,
}
use drew.Block.Cast5.Inverse.{cast5_decrypt-encrypt}

abbrev k128 : List ℕ
k128 =
    0x01 ∷ 0x23 ∷ 0x45 ∷ 0x67 ∷ 0x12 ∷ 0x34 ∷ 0x56 ∷ 0x78 ∷ 0x23 ∷ 0x45 ∷ 0x67 ∷ 0x89 ∷ 0x34 ∷ 0x56
    ∷ 0x78 ∷ 0x9a ∷ []

abbrev p128 : List ℕ
p128 = 0x01 ∷ 0x23 ∷ 0x45 ∷ 0x67 ∷ 0x89 ∷ 0xab ∷ 0xcd ∷ 0xef ∷ []

p128-IsBlock : IsBlock 8 p128
p128-IsBlock = record { size = refl; below = omega arith }

long_key_vector :
    encrypt (set_key k128) p128 ≡ 0x23 ∷ 0x8b ∷ 0x4f ∷ 0xe5 ∷ 0x84 ∷ 0x7e ∷ 0x44 ∷ 0xb2 ∷ []
unfolding encrypt encrypt_words encrypt_rounds sixteenth three_rounds f1 f2 f3 item set_key
    compute_subkeys sixteen_subkeys compute_z_set compute_x_set compute_subkey_set_a
    compute_subkey_set_b sub_byte for_up step swap rotate_left add_word sub_word get_byte on_words
    copy_in copy_out load store host_load host_store
long_key_vector = refl

short_key_vector :
    encrypt (set_key (take 5 k128)) p128
    ≡ 0x7a ∷ 0xc8 ∷ 0x16 ∷ 0xd1 ∷ 0x6e ∷ 0x9b ∷ 0x30 ∷ 0x2e ∷ []
unfolding encrypt encrypt_words encrypt_rounds sixteenth three_rounds f1 f2 f3 item set_key
    compute_subkeys sixteen_subkeys compute_z_set compute_x_set compute_subkey_set_a
    compute_subkey_set_b sub_byte for_up step swap rotate_left add_word sub_word get_byte on_words
    copy_in copy_out load store host_load host_store
short_key_vector = refl

cast5_decrypt-encrypt_example : decrypt (set_key k128) (encrypt (set_key k128) p128) ≡ p128
cast5_decrypt-encrypt_example = cast5_decrypt-encrypt (set_key k128) p128 p128-IsBlock
