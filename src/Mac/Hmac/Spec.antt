-- ===== src/Mac/Hmac/Spec.antt =====
-- HMAC as RFC 2104 defines it, over the hash of the padded message.
use drew.Prelude.{
  ℕ, ◌-◌, ◌≤◌, ◌<◌, ◌*◌, ◌^◌, List, ◌++◌, map, bit_xor, length, take, replicate, ltb, if◌then◌else◌,
}
use drew.Util.Endian.{copy_out}
use drew.Hash.Template.{Algorithm}
use drew.Hash.Template.Absorb.{absorb}
use drew.Hash.Template.Digest.{start, padded}

-- What `hmac_init` and the algorithms ask for: a block and a digest fit the array of 256 bytes, a
-- block is shorter than the range of a word, and `Transform` leaves enough words for a digest.
pub record IsSound (a : Algorithm) : Type 0 where
  pub block_small : a.block_size ≤ 256
  pub block_short : a.block_size < 256 ^ a.word_size
  pub digest_small : a.digest_size ≤ a.block_size
  pub digest_some : 0 < a.digest_size
  pub words_enough : (h block : List ℕ) → a.digest_size ≤ length (a.transform h block) * a.word_size

module _ (a : Algorithm) where
  unfoldable pub hash_of : List ℕ → List ℕ
  hash_of msg =
      take a.digest_size (copy_out a.endian a.word_size (absorb a (start a) (padded a msg)).hash)

  -- A key that is longer than a block is hashed.
  unfoldable pub short_key : List ℕ → List ℕ
  short_key key = if ltb a.block_size (length key) then hash_of key else key

  -- The key with zeros up to the size of a block.
  unfoldable pub key_block : List ℕ → List ℕ
  key_block key = short_key key ++ replicate (a.block_size - length (short_key key)) 0

  unfoldable pub hmac : List ℕ → List ℕ → List ℕ
  hmac key msg =
      hash_of
        (map (bit_xor 0x5c) (key_block key) ++ hash_of (map (bit_xor 0x36) (key_block key) ++ msg))
