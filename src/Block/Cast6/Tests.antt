-- ===== src/Block/Cast6/Tests.antt =====
-- The vectors of `cast6test`, and the theorem of Cast6/Inverse at a key and a block.
use drew.Prelude.{ℕ, ◌≡◌, refl, List, [], ◌∷◌, replicate, arith}
use drew.Prelude.Loops.{for_up}
use drew.Util.Rotate.{rotate_left, add_word, sub_word, get_byte}
use drew.Util.Endian.{IsBlock, load, store, host_load, host_store, copy_in, copy_out}
use drew.Block.Interface.{on_words}
use drew.Block.Cast5.{f1, f2, f3, item}
use drew.Block.Cast6.{
  encrypt, decrypt, encrypt_words, encrypt_rounds, quad_round, quad_round_bar, set_key, masks,
  next_mask, mix_word, mix_key, fill_keys,
}
use drew.Block.Cast6.Inverse.{cast6_decrypt-encrypt}

abbrev key_128 : List ℕ
key_128 =
    0x23 ∷ 0x42 ∷ 0xbb ∷ 0x9e ∷ 0xfa ∷ 0x38 ∷ 0x54 ∷ 0x2c ∷ 0x0a ∷ 0xf7 ∷ 0x56 ∷ 0x47 ∷ 0xf2 ∷ 0x9f
    ∷ 0x61 ∷ 0x5d ∷ []

abbrev zeros : List ℕ
zeros = replicate 16 0

zeros-IsBlock : IsBlock 16 zeros
zeros-IsBlock = record { size = refl; below = omega arith }

key_128_vector :
    encrypt (set_key key_128) zeros
    ≡ 0xc8 ∷ 0x42 ∷ 0xa0 ∷ 0x89 ∷ 0x72 ∷ 0xb4 ∷ 0x3d ∷ 0x20 ∷ 0x83 ∷ 0x6c ∷ 0x91 ∷ 0xd1 ∷ 0xb7
      ∷ 0x53 ∷ 0x0f ∷ 0x6b ∷ []
unfolding encrypt encrypt_words encrypt_rounds quad_round quad_round_bar set_key masks next_mask
    mix_word mix_key fill_keys f1 f2 f3 item for_up rotate_left add_word sub_word get_byte on_words
    copy_in copy_out load store host_load host_store
key_128_vector = refl

cast6_decrypt-encrypt_example : decrypt (set_key key_128) (encrypt (set_key key_128) zeros) ≡ zeros
cast6_decrypt-encrypt_example = cast6_decrypt-encrypt (set_key key_128) zeros zeros-IsBlock
