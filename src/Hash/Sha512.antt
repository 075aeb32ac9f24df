-- ===== src/Hash/Sha512.antt =====
-- impl/hash/sha512: the compression function of SHA-512 and SHA-384, and the classes, which put it into
-- the template of hash.hh with words of 64 bits. The block is expanded in place, in a circular buffer.
mod Tests
use drew.Prelude.{ℕ, ◌+◌, ◌/◌, ◌^◌, refl, List, [], ◌∷◌, bit_and, bit_xor, get_or, set, arith}
use drew.Prelude.Loops.{for_up}
use drew.Util.Rotate.{rotate_right, add_word, ternary_selection, ternary_majority}
use drew.Util.Endian.{big, copy_in}
use drew.Hash.Template.{Algorithm}

-- `S0` and `S1`
unfoldable pub upper_s0 : ℕ → ℕ
upper_s0 x = bit_xor (bit_xor (rotate_right 64 x 28) (rotate_right 64 x 34)) (rotate_right 64 x 39)

unfoldable pub upper_s1 : ℕ → ℕ
upper_s1 x = bit_xor (bit_xor (rotate_right 64 x 14) (rotate_right 64 x 18)) (rotate_right 64 x 41)

unfoldable pub s0 : ℕ → ℕ
s0 x = bit_xor (bit_xor (rotate_right 64 x 1) (rotate_right 64 x 8)) (x / 2 ^ 7)

unfoldable pub s1 : ℕ → ℕ
s1 x = bit_xor (bit_xor (rotate_right 64 x 19) (rotate_right 64 x 61)) (x / 2 ^ 6)

-- `k`
abbrev pub constants : List ℕ
constants =
    0x428a2f98d728ae22 ∷ 0x7137449123ef65cd ∷ 0xb5c0fbcfec4d3b2f ∷ 0xe9b5dba58189dbbc
    ∷ 0x3956c25bf348b538 ∷ 0x59f111f1b605d019 ∷ 0x923f82a4af194f9b ∷ 0xab1c5ed5da6d8118
    ∷ 0xd807aa98a3030242 ∷ 0x12835b0145706fbe ∷ 0x243185be4ee4b28c ∷ 0x550c7dc3d5ffb4e2
    ∷ 0x72be5d74f27b896f ∷ 0x80deb1fe3b1696b1 ∷ 0x9bdc06a725c71235 ∷ 0xc19bf174cf692694
    ∷ 0xe49b69c19ef14ad2 ∷ 0xefbe4786384f25e3 ∷ 0x0fc19dc68b8cd5b5 ∷ 0x240ca1cc77ac9c65
    ∷ 0x2de92c6f592b0275 ∷ 0x4a7484aa6ea6e483 ∷ 0x5cb0a9dcbd41fbd4 ∷ 0x76f988da831153b5
    ∷ 0x983e5152ee66dfab ∷ 0xa831c66d2db43210 ∷ 0xb00327c898fb213f ∷ 0xbf597fc7beef0ee4
    ∷ 0xc6e00bf33da88fc2 ∷ 0xd5a79147930aa725 ∷ 0x06ca6351e003826f ∷ 0x142929670a0e6e70
    ∷ 0x27b70a8546d22ffc ∷ 0x2e1b21385c26c926 ∷ 0x4d2c6dfc5ac42aed ∷ 0x53380d139d95b3df
    ∷ 0x650a73548baf63de ∷ 0x766a0abb3c77b2a8 ∷ 0x81c2c92e47edaee6 ∷ 0x92722c851482353b
    ∷ 0xa2bfe8a14cf10364 ∷ 0xa81a664bbc423001 ∷ 0xc24b8b70d0f89791 ∷ 0xc76c51a30654be30
    ∷ 0xd192e819d6ef5218 ∷ 0xd69906245565a910 ∷ 0xf40e35855771202a ∷ 0x106aa07032bbd1b8
    ∷ 0x19a4c116b8d2d0c8 ∷ 0x1e376c085141ab53 ∷ 0x2748774cdf8eeb99 ∷ 0x34b0bcb5e19b48a8
    ∷ 0x391c0cb3c5c95a63 ∷ 0x4ed8aa4ae3418acb ∷ 0x5b9cca4f7763e373 ∷ 0x682e6ff3d6b2b8a3
    ∷ 0x748f82ee5defb2fc ∷ 0x78a5636f43172f60 ∷ 0x84c87814a1f0ab72 ∷ 0x8cc702081a6439ec
    ∷ 0x90befffa23631e28 ∷ 0xa4506cebde82bde9 ∷ 0xbef9a3f7b2c67915 ∷ 0xc67178f2e372532b
    ∷ 0xca273eceea26619c ∷ 0xd186b8c721c0c207 ∷ 0xeada7dd6cde0eb1e ∷ 0xf57d4f7fee6ed178
    ∷ 0x06f067aa72176fba ∷ 0x0a637dc5a2c898a6 ∷ 0x113f9804bef90dae ∷ 0x1b710b35131c471b
    ∷ 0x28db77f523047d84 ∷ 0x32caab7b40c72493 ∷ 0x3c9ebe0a15c9bebc ∷ 0x431d67c49c100d4c
    ∷ 0x4cc5d4becb3e42b6 ∷ 0x597f299cfc657e2a ∷ 0x5fcb6fab3ad6faec ∷ 0x6c44198c4a475817 ∷ []

-- `a` to `h`, in the order in which the next `ROUND` takes them: each call hands the registers on by
-- one place, so that they are back in place after eight.
pub record Regs : Type 0 where
  pub a : ℕ
  pub b : ℕ
  pub c : ℕ
  pub d : ℕ
  pub e : ℕ
  pub f : ℕ
  pub g : ℕ
  pub h : ℕ

-- The right-hand sides of the two assignments to `h`.
abbrev pub first_sum : ℕ → ℕ → ℕ → ℕ → ℕ → ℕ
first_sum k w e f g =
    add_word 64 (add_word 64 (add_word 64 (upper_s1 e) (ternary_selection e f g)) k) w

abbrev pub second_sum : ℕ → ℕ → ℕ → ℕ
second_sum a b c = add_word 64 (upper_s0 a) (ternary_majority a b c)

-- `ROUND` with the constant `k` and the word `w`.
unfoldable pub round : ℕ → ℕ → Regs → Regs
round k w s =
    let h = add_word 64 s.h (first_sum k w s.e s.f s.g) in
    record {
      a = add_word 64 h (second_sum s.a s.b s.c);
      b = s.a;
      c = s.b;
      d = s.c;
      e = add_word 64 s.d h;
      f = s.e;
      g = s.f;
      h = s.g;
    }

-- The registers and `blk` of `Transform`.
pub record Forward : Type 0 where
  pub regs : Regs
  pub blk : List ℕ

-- A call of the first loop.
unfoldable pub first_round : ℕ → Forward → Forward
first_round i s = record s { regs = round (get_or constants i 0) (get_or s.blk i 0) s.regs }

-- The call of `ROUND2` for round `i`, whose index in the buffer is `i & 15`.
unfoldable pub round2 : ℕ → Forward → Forward
unfolding s0 s1 round
round2 i s =
    let j = bit_and i 15 in
    let sum =
      add_word 64
        (add_word 64 (s1 (get_or s.blk (bit_and (j + 14) 15) 0))
          (get_or s.blk (bit_and (j + 9) 15) 0))
        (s0 (get_or s.blk (bit_and (j + 1) 15) 0)) in
    let word = add_word 64 (get_or s.blk j 0) sum in
    record { regs = round (get_or constants i 0) word s.regs; blk = set s.blk j word }

abbrev pub read_regs : List ℕ → Regs
read_regs v = record {
  a = get_or v 0 0;
  b = get_or v 1 0;
  c = get_or v 2 0;
  d = get_or v 3 0;
  e = get_or v 4 0;
  f = get_or v 5 0;
  g = get_or v 6 0;
  h = get_or v 7 0;
}

unfoldable pub transform : List ℕ → List ℕ → List ℕ
unfolding first_round round2
transform state block =
    let s : Forward = record { regs = read_regs state; blk = copy_in big 8 16 block } in
    let b = (for_up 64 16 round2 (for_up 16 0 first_round s)).regs in
    add_word 64 (get_or state 0 0) b.a
    ∷ add_word 64 (get_or state 1 0) b.b
    ∷ add_word 64 (get_or state 2 0) b.c
    ∷ add_word 64 (get_or state 3 0) b.d
    ∷ add_word 64 (get_or state 4 0) b.e
    ∷ add_word 64 (get_or state 5 0) b.f
    ∷ add_word 64 (get_or state 6 0) b.g
    ∷ add_word 64 (get_or state 7 0) b.h
    ∷ []

-- What the two `Reset`s put in `m_hash`.
abbrev pub initial_hash : List ℕ
initial_hash =
    0x6a09e667f3bcc908 ∷ 0xbb67ae8584caa73b ∷ 0x3c6ef372fe94f82b ∷ 0xa54ff53a5f1d36f1
    ∷ 0x510e527fade682d1 ∷ 0x9b05688c2b3e6c1f ∷ 0x1f83d9abfb41bd6b ∷ 0x5be0cd19137e2179 ∷ []

abbrev pub initial_hash_384 : List ℕ
initial_hash_384 =
    0xcbbb9d5dc1059ed8 ∷ 0x629a292a367cd507 ∷ 0x9159015a3070dd17 ∷ 0x152fecd8f70e5939
    ∷ 0x67332667ffc00b31 ∷ 0x8eb44a8768581511 ∷ 0xdb0c2e0d64f98fa7 ∷ 0x47b5481dbefa4fa4 ∷ []

abbrev of_size : ℕ → List ℕ → Algorithm
of_size size initial = record {
  word_size = 8;
  block_size = 128;
  digest_size = size;
  endian = big;
  transform = transform;
  initial_hash = initial;
  word_some = omega arith;
  length_fits = omega arith;
  blocks = 2 ^ 57;
  block_divides = refl;
}

abbrev pub sha512 : Algorithm
sha512 = of_size 64 initial_hash

abbrev pub sha384 : Algorithm
sha384 = of_size 48 initial_hash_384
