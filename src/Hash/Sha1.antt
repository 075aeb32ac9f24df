-- ===== src/Hash/Sha1.antt =====
-- impl/hash/sha1/sha1.cc: `SHA<Rotate>`, the compression function and its inverse, on which SHACAL-1
-- stands.
pub mod Class
pub mod Expansion
pub mod Inverse
pub mod Transform
mod Tests
use drew.Prelude.{
  ℕ, zero, ◌+◌, ◌-◌, ◌*◌, List, [], ◌∷◌, bit_and, bit_xor, take, get_or, set, ltb, ◌==◌,
  if◌then◌else◌,
}
use drew.Prelude.Loops.{for_up, for_down}
use drew.Util.Rotate.{rotate_left, rotate_right, add_word, sub_word}
use drew.Util.Endian.{big, copy_in}

unfoldable pub ff : ℕ → ℕ → ℕ → ℕ
ff x y z = add_word 32 (bit_xor z (bit_and x (bit_xor y z))) 0x5a827999

unfoldable pub gg : ℕ → ℕ → ℕ → ℕ
gg x y z = add_word 32 (bit_xor (bit_xor x y) z) 0x6ed9eba1

unfoldable pub hh : ℕ → ℕ → ℕ → ℕ
hh x y z = add_word 32 (add_word 32 (bit_and x y) (bit_and z (bit_xor x y))) 0x8f1bbcdc

unfoldable pub ii : ℕ → ℕ → ℕ → ℕ
ii x y z = add_word 32 (bit_xor (bit_xor x y) z) 0xca62c1d6

-- `a` to `e`, in the order in which the next `OP` takes them: each call hands the registers on by one
-- place, so that they are back in place after five.
pub record Regs : Type 0 where
  pub a : ℕ
  pub b : ℕ
  pub c : ℕ
  pub d : ℕ
  pub e : ℕ

-- What `OP` adds to `e`, and `INVOP` takes away: `RotateLeft(a, 5)+f(b, c, d)+g`.
abbrev pub round_sum : (ℕ → ℕ → ℕ → ℕ) → ℕ → ℕ → ℕ → ℕ → ℕ → ℕ
round_sum f g a b c d = add_word 32 (add_word 32 (rotate_left 32 a 5) (f b c d)) g

unfoldable pub op : (ℕ → ℕ → ℕ → ℕ) → ℕ → Regs → Regs
op f g s = record {
  a = add_word 32 s.e (round_sum f g s.a s.b s.c s.d);
  b = s.a;
  c = rotate_left 32 s.b 30;
  d = s.c;
  e = s.d;
}

-- `INVOP` on the registers in the order in which `OP` took them.
pub inv_op : (ℕ → ℕ → ℕ → ℕ) → ℕ → Regs → Regs
inv_op f g s =
    let b = rotate_right 32 s.c 30 in
    record { a = s.b; b = b; c = s.d; d = s.e; e = sub_word 32 s.a (round_sum f g s.b b s.d s.e) }

-- The function of call `i`.
unfoldable pub round_function : ℕ → ℕ → ℕ → ℕ → ℕ
unfolding ff gg hh ii
round_function i x y z =
    if ltb i 20
    then ff x y z
    else if ltb i 40
    then gg x y z
    else if ltb i 60
    then hh x y z
    else ii x y z

-- The registers and the circular buffer of `ForwardTransform`.
pub record Forward : Type 0 where
  pub regs : Regs
  pub blk : List ℕ

-- `EXPANSION(i)` with `Rotate` 1, and with `Rotate` 0: the new word, which is stored at `i & 15`.
unfoldable pub expansion : ℕ → ℕ → List ℕ → ℕ
expansion rotate i blk =
    let x =
      bit_xor
        (bit_xor (bit_xor (get_or blk (bit_and (i + 13) 15) 0) (get_or blk (bit_and (i + 8) 15) 0))
          (get_or blk (bit_and (i + 2) 15) 0))
        (get_or blk (bit_and i 15) 0) in
    if rotate == 0 then x else rotate_left 32 x rotate

-- The call of `OP` number `i`; the first 16 take the block as it is.
unfoldable pub forward_round : ℕ → ℕ → Forward → Forward
unfolding op round_function expansion
forward_round rotate i s =
    let x = expansion rotate i s.blk in
    if ltb i 16
    then record s { regs = op (round_function i) (get_or s.blk i 0) s.regs }
    else record { regs = op (round_function i) x s.regs; blk = set s.blk (bit_and i 15) x }

abbrev pub read_regs : List ℕ → Regs
read_regs v = record {
  a = get_or v 0 0;
  b = get_or v 1 0;
  c = get_or v 2 0;
  d = get_or v 3 0;
  e = get_or v 4 0;
}

abbrev pub write_regs : Regs → List ℕ
write_regs s = s.a ∷ s.b ∷ s.c ∷ s.d ∷ s.e ∷ []

unfoldable pub forward_transform : ℕ → List ℕ → List ℕ → List ℕ
unfolding forward_round
forward_transform rotate state block =
    let s : Forward = record { regs = read_regs state; blk = take 16 block } in
    write_regs (for_up 80 0 (forward_round rotate) s).regs

-- `blk` holds all 80 words here.
pub inverse_transform : List ℕ → List ℕ → List ℕ
unfolding inv_op round_function
inverse_transform state blk =
    write_regs (for_down 80 0 (λ i. inv_op (round_function i) (get_or blk i 0)) (read_regs state))

unfoldable pub transform : ℕ → List ℕ → List ℕ → List ℕ
unfolding forward_transform
transform rotate state block =
    let b = forward_transform rotate state (copy_in big 4 16 block) in
    add_word 32 (get_or state 0 0) (get_or b 0 0)
    ∷ add_word 32 (get_or state 1 0) (get_or b 1 0)
    ∷ add_word 32 (get_or state 2 0) (get_or b 2 0)
    ∷ add_word 32 (get_or state 3 0) (get_or b 3 0)
    ∷ add_word 32 (get_or state 4 0) (get_or b 4 0)
    ∷ []

-- What `Reset` puts in `m_hash`.
abbrev pub initial_hash : List ℕ
initial_hash = 0x67452301 ∷ 0xefcdab89 ∷ 0x98badcfe ∷ 0x10325476 ∷ 0xc3d2e1f0 ∷ []
