-- ===== src/Block/Shacal2/Tests.antt =====
-- The first vector of `shacal2test`, and the theorem of Shacal2/Inverse at its key.
use drew.Prelude.{some, none, ℕ, ◌≡◌, refl, List, [], ◌∷◌, replicate, arith}
use drew.Prelude.Loops.{for_up}
use drew.Util.Rotate.{rotate_right, add_word, ternary_selection, ternary_majority}
use drew.Util.Endian.{IsBlock, copy_in, copy_out, load, store, host_load, host_store}
use drew.Block.Interface.{on_words}
use drew.Hash.Sha256.{
  upper_s0, upper_s1, s0, s1, round, expanded, first_round, round2, forward_transform,
}
use drew.Block.Shacal2.{expand_key, set_key, encrypt}
use drew.Block.Shacal2.Inverse.{there_and_back, shacal2_decrypt-encrypt}

abbrev key_1 : List ℕ
key_1 = 0x80 ∷ []

abbrev block_32 : List ℕ
block_32 = replicate 32 0

block_32-IsBlock : IsBlock 32 block_32
block_32-IsBlock = record { size = refl; below = omega arith }

abbrev written : List ℕ
written =
    0x36 ∷ 0x1a ∷ 0xb6 ∷ 0x32 ∷ 0x2f ∷ 0xa9 ∷ 0xe7 ∷ 0xa7 ∷ 0xbb ∷ 0x23 ∷ 0x81 ∷ 0x8d ∷ 0x83 ∷ 0x9e
    ∷ 0x01 ∷ 0xbd ∷ 0xda ∷ 0xfd ∷ 0xf4 ∷ 0x73 ∷ 0x05 ∷ 0x42 ∷ 0x6e ∷ 0xdd ∷ 0x29 ∷ 0x7a ∷ 0xed
    ∷ 0xb9 ∷ 0xf6 ∷ 0x20 ∷ 0x2b ∷ 0xae ∷ []

shacal2_vector : encrypt (expand_key key_1) block_32 ≡ written
unfolding encrypt expand_key expanded forward_transform first_round round2 round upper_s0 upper_s1
    s0 s1 for_up ternary_selection ternary_majority rotate_right add_word on_words copy_in copy_out
    load store host_load host_store
shacal2_vector = refl

shacal2_decrypt-encrypt_example : there_and_back key_1 block_32 ≡ some block_32
shacal2_decrypt-encrypt_example =
    shacal2_decrypt-encrypt key_1 block_32 (omega arith) block_32-IsBlock

too_long : set_key (replicate 65 0) ≡ none
unfolding set_key
too_long = refl
