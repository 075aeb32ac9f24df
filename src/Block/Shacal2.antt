-- ===== src/Block/Shacal2.antt =====
-- impl/block/shacal/shacal.cc: SHACAL-2, the compression function of SHA-256 as a block cipher of eight
-- words, whose key is the message block.
pub mod Inverse
mod Tests
use drew.Prelude.{
  ℕ, Option, none, some, ltb, if◌then◌else◌, ◌-◌, List, ◌++◌, length, replicate, set,
}
use drew.Prelude.Loops.{for_up}
use drew.Util.Endian.{big, copy_in}
use drew.Block.Interface.{on_words}
use drew.Hash.Sha256.{expanded, forward_transform, inverse_transform}

-- `SetKeyInternal`: `m_words` for a key that fits `buf`. Its recurrence is that of `ROUND2`, with the
-- same `s0` and `s1`.
unfoldable pub expand_key : List ℕ → List ℕ
expand_key key =
    let buf = key ++ replicate (64 - length key) 0 in
    for_up 48 16 (λ i w. set w i (expanded i w)) (copy_in big 4 16 buf ++ replicate 48 0)

-- `none` is the copy past the 64 bytes of `buf`, for a longer key, which the code does not exclude.
unfoldable pub set_key : List ℕ → Option (List ℕ)
set_key key = if ltb 64 (length key) then none else some (expand_key key)

pub encrypt : List ℕ → List ℕ → List ℕ
encrypt words = on_words big 4 8 (λ v. forward_transform v words)

pub decrypt : List ℕ → List ℕ → List ℕ
decrypt words = on_words big 4 8 (λ v. inverse_transform v words)
