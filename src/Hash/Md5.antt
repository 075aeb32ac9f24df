-- ===== src/Hash/Md5.antt =====
-- impl/hash/md5: the compression function of MD5, and the class, which puts it into the template of
-- hash.hh.
mod Tests
use drew.Prelude.{ℕ, ◌^◌, refl, List, [], ◌∷◌, bit_and, bit_or, bit_xor, get_or, arith}
use drew.Util.Rotate.{rotate_left, add_word, not_word}
use drew.Util.Endian.{little, copy_in}
use drew.Hash.Template.{Algorithm}

unfoldable pub f : ℕ → ℕ → ℕ → ℕ
f x y z = bit_xor z (bit_and x (bit_xor y z))

unfoldable pub g : ℕ → ℕ → ℕ → ℕ
unfolding f
g x y z = f z x y

unfoldable pub h : ℕ → ℕ → ℕ → ℕ
h x y z = bit_xor (bit_xor x y) z

unfoldable pub i : ℕ → ℕ → ℕ → ℕ
i x y z = bit_xor y (bit_or x (not_word 32 z))

-- `a` to `d`, in the order in which the next call takes them: each call hands the registers on by one
-- place, so that they are back in place after four.
pub record Regs : Type 0 where
  pub a : ℕ
  pub b : ℕ
  pub c : ℕ
  pub d : ℕ

-- `op` with the function, the word of the block, the constant and the distance.
unfoldable pub op : (ℕ → ℕ → ℕ → ℕ) → ℕ → ℕ → ℕ → Regs → Regs
op func blk k s r =
    let sum = add_word 32 (add_word 32 (add_word 32 r.a (func r.b r.c r.d)) blk) k in
    record { a = r.d; b = add_word 32 r.b (rotate_left 32 sum s); c = r.b; d = r.c }

-- The calls with one function: the index of the word, the distance and the constant of each.
unfoldable pub calls : (ℕ → ℕ → ℕ → ℕ) → List ℕ → List (ℕ × ℕ × ℕ) → Regs → Regs
unfolding op
calls func blk [] r = r
calls func blk ((k, s, t) ∷ rest) r = calls func blk rest (op func (get_or blk k 0) t s r)

-- `FF`, `GG`, `HH` and `II`
abbrev ff_calls : List (ℕ × ℕ × ℕ)
ff_calls =
    (0, 7, 0xd76aa478)
    ∷ (1, 12, 0xe8c7b756)
    ∷ (2, 17, 0x242070db)
    ∷ (3, 22, 0xc1bdceee)
    ∷ (4, 7, 0xf57c0faf)
    ∷ (5, 12, 0x4787c62a)
    ∷ (6, 17, 0xa8304613)
    ∷ (7, 22, 0xfd469501)
    ∷ (8, 7, 0x698098d8)
    ∷ (9, 12, 0x8b44f7af)
    ∷ (10, 17, 0xffff5bb1)
    ∷ (11, 22, 0x895cd7be)
    ∷ (12, 7, 0x6b901122)
    ∷ (13, 12, 0xfd987193)
    ∷ (14, 17, 0xa679438e)
    ∷ (15, 22, 0x49b40821)
    ∷ []

abbrev gg_calls : List (ℕ × ℕ × ℕ)
gg_calls =
    (1, 5, 0xf61e2562)
    ∷ (6, 9, 0xc040b340)
    ∷ (11, 14, 0x265e5a51)
    ∷ (0, 20, 0xe9b6c7aa)
    ∷ (5, 5, 0xd62f105d)
    ∷ (10, 9, 0x02441453)
    ∷ (15, 14, 0xd8a1e681)
    ∷ (4, 20, 0xe7d3fbc8)
    ∷ (9, 5, 0x21e1cde6)
    ∷ (14, 9, 0xc33707d6)
    ∷ (3, 14, 0xf4d50d87)
    ∷ (8, 20, 0x455a14ed)
    ∷ (13, 5, 0xa9e3e905)
    ∷ (2, 9, 0xfcefa3f8)
    ∷ (7, 14, 0x676f02d9)
    ∷ (12, 20, 0x8d2a4c8a)
    ∷ []

abbrev hh_calls : List (ℕ × ℕ × ℕ)
hh_calls =
    (5, 4, 0xfffa3942)
    ∷ (8, 11, 0x8771f681)
    ∷ (11, 16, 0x6d9d6122)
    ∷ (14, 23, 0xfde5380c)
    ∷ (1, 4, 0xa4beea44)
    ∷ (4, 11, 0x4bdecfa9)
    ∷ (7, 16, 0xf6bb4b60)
    ∷ (10, 23, 0xbebfbc70)
    ∷ (13, 4, 0x289b7ec6)
    ∷ (0, 11, 0xeaa127fa)
    ∷ (3, 16, 0xd4ef3085)
    ∷ (6, 23, 0x04881d05)
    ∷ (9, 4, 0xd9d4d039)
    ∷ (12, 11, 0xe6db99e5)
    ∷ (15, 16, 0x1fa27cf8)
    ∷ (2, 23, 0xc4ac5665)
    ∷ []

abbrev ii_calls : List (ℕ × ℕ × ℕ)
ii_calls =
    (0, 6, 0xf4292244)
    ∷ (7, 10, 0x432aff97)
    ∷ (14, 15, 0xab9423a7)
    ∷ (5, 21, 0xfc93a039)
    ∷ (12, 6, 0x655b59c3)
    ∷ (3, 10, 0x8f0ccc92)
    ∷ (10, 15, 0xffeff47d)
    ∷ (1, 21, 0x85845dd1)
    ∷ (8, 6, 0x6fa87e4f)
    ∷ (15, 10, 0xfe2ce6e0)
    ∷ (6, 15, 0xa3014314)
    ∷ (13, 21, 0x4e0811a1)
    ∷ (4, 6, 0xf7537e82)
    ∷ (11, 10, 0xbd3af235)
    ∷ (2, 15, 0x2ad7d2bb)
    ∷ (9, 21, 0xeb86d391)
    ∷ []

unfoldable pub transform : List ℕ → List ℕ → List ℕ
unfolding calls f g h i
transform state block =
    let blk = copy_in little 4 16 block in
    let start : Regs = record {
      a = get_or state 0 0;
      b = get_or state 1 0;
      c = get_or state 2 0;
      d = get_or state 3 0;
    } in
    let r =
      calls i blk ii_calls
        (calls h blk hh_calls (calls g blk gg_calls (calls f blk ff_calls start))) in
    add_word 32 start.a r.a
    ∷ add_word 32 start.b r.b
    ∷ add_word 32 start.c r.c
    ∷ add_word 32 start.d r.d
    ∷ []

-- What `Reset` puts in `m_hash`.
abbrev pub initial_hash : List ℕ
initial_hash = 0x67452301 ∷ 0xefcdab89 ∷ 0x98badcfe ∷ 0x10325476 ∷ []

-- `MD5`
abbrev pub md5 : Algorithm
md5 = record {
  word_size = 4;
  block_size = 64;
  digest_size = 16;
  endian = little;
  transform = transform;
  initial_hash = initial_hash;
  word_some = omega arith;
  length_fits = omega arith;
  blocks = 2 ^ 26;
  block_divides = refl;
}
