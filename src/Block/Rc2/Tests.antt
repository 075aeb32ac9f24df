-- ===== src/Block/Rc2/Tests.antt =====
-- The first vector of `rc2test`, and the theorem of Rc2/Inverse at a key and a block.
use drew.Prelude.{ℕ, ◌≡◌, refl, List, [], ◌∷◌, arith}
use drew.Prelude.Loops.{for_up, for_down}
use drew.Util.Rotate.{add_word, not_word, rotate_left}
use drew.Util.Endian.{IsBlock, load, store, host_load, host_store, copy_in, copy_out}
use drew.Block.Interface.{on_words}
use drew.Block.Rc2.{
  encrypt, decrypt, encrypt_words, mix_round, mash_round, mix, mash, mix_term, mash_term, set_key,
  expand_up, expand_down,
}
use drew.Block.Rc2.Inverse.{rc2_decrypt-encrypt}

abbrev ones_8 : List ℕ
ones_8 = 0xff ∷ 0xff ∷ 0xff ∷ 0xff ∷ 0xff ∷ 0xff ∷ 0xff ∷ 0xff ∷ []

abbrev block_8 : List ℕ
block_8 = 0xaf ∷ 0x20 ∷ 0xa3 ∷ 0x90 ∷ 0x54 ∷ 0x75 ∷ 0x71 ∷ 0xaa ∷ []

block_8-IsBlock : IsBlock 8 block_8
block_8-IsBlock = record { size = refl; below = omega arith }

rc2_vector :
    encrypt (set_key ones_8) ones_8 ≡ 0x27 ∷ 0x8b ∷ 0x27 ∷ 0xe4 ∷ 0x2e ∷ 0x2f ∷ 0x0d ∷ 0x49 ∷ []
unfolding encrypt encrypt_words mix_round mash_round mix mash mix_term mash_term set_key expand_up
    expand_down for_up for_down add_word not_word rotate_left on_words copy_in copy_out load store
    host_load host_store
rc2_vector = refl

rc2_decrypt-encrypt_example : decrypt (set_key ones_8) (encrypt (set_key ones_8) block_8) ≡ block_8
rc2_decrypt-encrypt_example = rc2_decrypt-encrypt (set_key ones_8) block_8 block_8-IsBlock
