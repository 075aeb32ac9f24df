-- ===== src/Hash/Md4.antt =====
-- impl/hash/md4: the compression function of MD4, and the class, which puts it into the template of
-- hash.hh.
mod Tests
use drew.Prelude.{ℕ, ◌^◌, refl, List, [], ◌∷◌, bit_and, bit_or, bit_xor, get_or, arith}
use drew.Util.Rotate.{rotate_left, add_word}
use drew.Util.Endian.{little, copy_in}
use drew.Hash.Template.{Algorithm}

unfoldable pub f : ℕ → ℕ → ℕ → ℕ
f x y z = bit_xor z (bit_and x (bit_xor y z))

unfoldable pub g : ℕ → ℕ → ℕ → ℕ
g x y z = bit_or (bit_and x y) (bit_and z (bit_or x y))

unfoldable pub h : ℕ → ℕ → ℕ → ℕ
h x y z = bit_xor (bit_xor x y) z

-- `a` to `d`, in the order in which the next `OP` takes them, as in MD5.
pub record Regs : Type 0 where
  pub a : ℕ
  pub b : ℕ
  pub c : ℕ
  pub d : ℕ

-- `OP` with the function, the word of the block, the distance and the constant `x`.
unfoldable pub op : (ℕ → ℕ → ℕ → ℕ) → ℕ → ℕ → ℕ → Regs → Regs
op func blk s x r =
    let sum = add_word 32 (add_word 32 (add_word 32 r.a (func r.b r.c r.d)) blk) x in
    record { a = r.d; b = rotate_left 32 sum s; c = r.b; d = r.c }

-- The calls with one function and its constant: the index of the word and the distance of each.
unfoldable pub calls : (ℕ → ℕ → ℕ → ℕ) → ℕ → List ℕ → List (ℕ × ℕ) → Regs → Regs
unfolding op
calls func x blk [] r = r
calls func x blk ((k, s) ∷ rest) r = calls func x blk rest (op func (get_or blk k 0) s x r)

-- `FF`, `GG` and `HH`
abbrev ff_calls : List (ℕ × ℕ)
ff_calls =
    (0, 3)
    ∷ (1, 7)
    ∷ (2, 11)
    ∷ (3, 19)
    ∷ (4, 3)
    ∷ (5, 7)
    ∷ (6, 11)
    ∷ (7, 19)
    ∷ (8, 3)
    ∷ (9, 7)
    ∷ (10, 11)
    ∷ (11, 19)
    ∷ (12, 3)
    ∷ (13, 7)
    ∷ (14, 11)
    ∷ (15, 19)
    ∷ []

abbrev gg_calls : List (ℕ × ℕ)
gg_calls =
    (0, 3)
    ∷ (4, 5)
    ∷ (8, 9)
    ∷ (12, 13)
    ∷ (1, 3)
    ∷ (5, 5)
    ∷ (9, 9)
    ∷ (13, 13)
    ∷ (2, 3)
    ∷ (6, 5)
    ∷ (10, 9)
    ∷ (14, 13)
    ∷ (3, 3)
    ∷ (7, 5)
    ∷ (11, 9)
    ∷ (15, 13)
    ∷ []

abbrev hh_calls : List (ℕ × ℕ)
hh_calls =
    (0, 3)
    ∷ (8, 9)
    ∷ (4, 11)
    ∷ (12, 15)
    ∷ (2, 3)
    ∷ (10, 9)
    ∷ (6, 11)
    ∷ (14, 15)
    ∷ (1, 3)
    ∷ (9, 9)
    ∷ (5, 11)
    ∷ (13, 15)
    ∷ (3, 3)
    ∷ (11, 9)
    ∷ (7, 11)
    ∷ (15, 15)
    ∷ []

unfoldable pub transform : List ℕ → List ℕ → List ℕ
unfolding calls f g h
transform state block =
    let blk = copy_in little 4 16 block in
    let start : Regs = record {
      a = get_or state 0 0;
      b = get_or state 1 0;
      c = get_or state 2 0;
      d = get_or state 3 0;
    } in
    let r =
      calls h 0x6ed9eba1 blk hh_calls
        (calls g 0x5a827999 blk gg_calls (calls f 0 blk ff_calls start)) in
    add_word 32 start.a r.a
    ∷ add_word 32 start.b r.b
    ∷ add_word 32 start.c r.c
    ∷ add_word 32 start.d r.d
    ∷ []

-- What `Reset` puts in `m_hash`.
abbrev pub initial_hash : List ℕ
initial_hash = 0x67452301 ∷ 0xefcdab89 ∷ 0x98badcfe ∷ 0x10325476 ∷ []

-- `MD4`
abbrev pub md4 : Algorithm
md4 = record {
  word_size = 4;
  block_size = 64;
  digest_size = 16;
  endian = little;
  transform = transform;
  initial_hash = initial_hash;
  word_some = omega arith;
  length_fits = omega arith;
  blocks = 2 ^ 26;
  block_divides = refl;
}
