-- ===== src/Hash/Sha1/Class.antt =====
-- impl/hash/sha1/sha1.hh: the classes `SHA0` and `SHA1`, which put the compression function into the
-- template of hash.hh.
use drew.Prelude.{ℕ, ◌^◌, refl, arith}
use drew.Util.Endian.{big}
use drew.Hash.Template.{Algorithm}
use drew.Hash.Sha1.{transform, initial_hash}

-- `SHA<Rotate>`
abbrev pub sha : ℕ → Algorithm
sha rotate = record {
  word_size = 4;
  block_size = 64;
  digest_size = 20;
  endian = big;
  transform = transform rotate;
  initial_hash = initial_hash;
  word_some = omega arith;
  length_fits = omega arith;
  blocks = 2 ^ 26;
  block_divides = refl;
}
