-- ===== src/Block/Shacal/Tests.antt =====
-- SHACAL-1 at the vector of `shacal1test`, and the theorems on it and on SHA-1 at its key.
use drew.Prelude.{some, none, ℕ, ◌≡◌, refl, List, [], ◌∷◌, replicate, arith}
use drew.Prelude.Loops.{for_up}
use drew.Util.Rotate.{rotate_left, add_word}
use drew.Util.Endian.{IsBlock, IsWords, copy_in, copy_out, load, store, host_load, host_store}
use drew.Block.Interface.{on_words}
use drew.Hash.Sha1.{
  read_regs, write_regs, forward_round, op, ff, gg, hh, ii, round_function, expansion,
  forward_transform, inverse_transform, initial_hash,
}
use drew.Hash.Sha1.Inverse.{rounds}
use drew.Hash.Sha1.Transform.{forward_transform_lem, inverse_transform-forward_transform}
use drew.Block.Shacal.{expanded, expand_key, set_key, encrypt}
use drew.Block.Shacal.Schedule.{expand_key-IsExpanded}
use drew.Block.Shacal.Inverse.{there_and_back, shacal1_decrypt-encrypt}

abbrev key_1 : List ℕ
key_1 = 0x80 ∷ []

abbrev block_20 : List ℕ
block_20 = replicate 20 0

block_20-IsBlock : IsBlock 20 block_20
block_20-IsBlock = record { size = refl; below = omega arith }

shacal1_vector :
    encrypt (expand_key key_1) block_20
    ≡ 0x0f ∷ 0xfd ∷ 0x8d ∷ 0x43 ∷ 0xb4 ∷ 0xe3 ∷ 0x3c ∷ 0x7c ∷ 0x53 ∷ 0x46 ∷ 0x1b ∷ 0xd1 ∷ 0x0f
      ∷ 0x27 ∷ 0xa5 ∷ 0x46 ∷ 0x10 ∷ 0x50 ∷ 0xd9 ∷ 0x0d ∷ []
unfolding encrypt expand_key expanded forward_transform forward_round op ff gg hh ii round_function
    expansion for_up rotate_left add_word on_words copy_in copy_out load store host_load host_store
shacal1_vector = refl

initial_hash-IsWords : IsWords 4 5 initial_hash
initial_hash-IsWords = record { size = refl; below = omega arith }

forward_transform_lem_example :
    forward_transform 1 initial_hash (expand_key key_1)
    ≡ write_regs (for_up 80 0 (rounds (expand_key key_1)) (read_regs initial_hash))
forward_transform_lem_example =
    forward_transform_lem initial_hash (expand_key key_1) (expand_key-IsExpanded key_1)

inverse_transform-forward_transform_example :
    inverse_transform (forward_transform 1 initial_hash (expand_key key_1)) (expand_key key_1)
    ≡ initial_hash
inverse_transform-forward_transform_example =
    inverse_transform-forward_transform initial_hash (expand_key key_1)
      (expand_key-IsExpanded key_1) initial_hash-IsWords

shacal1_decrypt-encrypt_example : there_and_back key_1 block_20 ≡ some block_20
shacal1_decrypt-encrypt_example =
    shacal1_decrypt-encrypt key_1 block_20 (omega arith) block_20-IsBlock

too_long : set_key (replicate 65 0) ≡ none
unfolding set_key
too_long = refl
