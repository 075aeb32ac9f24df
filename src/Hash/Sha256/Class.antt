-- ===== src/Hash/Sha256/Class.antt =====
-- impl/hash/sha256/sha256.hh: the classes `SHA256` and `SHA224`, which put the compression function into
-- the template of hash.hh.
use drew.Prelude.{ℕ, ◌^◌, List, refl, arith}
use drew.Util.Endian.{big}
use drew.Hash.Template.{Algorithm}
use drew.Hash.Sha256.{transform, initial_hash, initial_hash_224}

abbrev of_size : ℕ → List ℕ → Algorithm
of_size size initial = record {
  word_size = 4;
  block_size = 64;
  digest_size = size;
  endian = big;
  transform = transform;
  initial_hash = initial;
  word_some = omega arith;
  length_fits = omega arith;
  blocks = 2 ^ 26;
  block_divides = refl;
}

abbrev pub sha256 : Algorithm
sha256 = of_size 32 initial_hash

abbrev pub sha224 : Algorithm
sha224 = of_size 28 initial_hash_224
