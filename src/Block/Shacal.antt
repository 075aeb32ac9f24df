-- ===== src/Block/Shacal.antt =====
-- impl/block/shacal/shacal.cc: SHACAL-1, the compression function of SHA-1 as a block cipher of five
-- words, whose key is the message block.
pub mod Schedule
pub mod Inverse
mod Tests
use drew.Prelude.{
  ℕ, Option, none, some, ltb, if◌then◌else◌, ◌+◌, ◌-◌, List, ◌++◌, bit_xor, length, replicate,
  get_or, set,
}
use drew.Prelude.Loops.{for_up}
use drew.Util.Rotate.{rotate_left}
use drew.Util.Endian.{big, copy_in}
use drew.Block.Interface.{on_words}
use drew.Hash.Sha1.{forward_transform, inverse_transform}

-- The right-hand side of the assignment to `m_words[i]`.
pub expanded : ℕ → List ℕ → ℕ
expanded i w =
    rotate_left 32
      (bit_xor (bit_xor (bit_xor (get_or w (i - 3) 0) (get_or w (i - 8) 0)) (get_or w (i - 14) 0))
        (get_or w (i - 16) 0))
      1

-- `SetKeyInternal`: `m_words` for a key that fits `buf`.
pub expand_key : List ℕ → List ℕ
unfolding expanded
expand_key key =
    let buf = key ++ replicate (64 - length key) 0 in
    for_up 64 16 (λ i w. set w i (expanded i w)) (copy_in big 4 16 buf ++ replicate 64 0)

-- `none` is the copy past the 64 bytes of `buf`, for a longer key, which the code does not exclude.
pub set_key : List ℕ → Option (List ℕ)
unfolding expand_key
set_key key = if ltb 64 (length key) then none else some (expand_key key)

pub encrypt : List ℕ → List ℕ → List ℕ
encrypt words = on_words big 4 5 (λ v. forward_transform 1 v words)

pub decrypt : List ℕ → List ℕ → List ℕ
decrypt words = on_words big 4 5 (λ v. inverse_transform v words)
