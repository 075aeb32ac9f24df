-- ===== src/Hash/Sha256.antt =====
-- impl/hash/sha256/sha256.cc: the compression function of SHA-256 and SHA-224 and its inverse, on which
-- SHACAL-2 stands.
pub mod Class
pub mod Inverse
pub mod Expansion
pub mod Transform
mod Tests
use drew.Prelude.{ℕ, ◌+◌, ◌-◌, ◌/◌, ◌^◌, List, [], ◌∷◌, ◌++◌, bit_xor, take, replicate, get_or, set}
use drew.Prelude.Loops.{for_up, for_down}
use drew.Util.Rotate.{rotate_right, add_word, sub_word, ternary_selection, ternary_majority}
use drew.Util.Endian.{big, copy_in}

-- `S0` and `S1`
unfoldable pub upper_s0 : ℕ → ℕ
upper_s0 x = bit_xor (bit_xor (rotate_right 32 x 2) (rotate_right 32 x 13)) (rotate_right 32 x 22)

unfoldable pub upper_s1 : ℕ → ℕ
upper_s1 x = bit_xor (bit_xor (rotate_right 32 x 6) (rotate_right 32 x 11)) (rotate_right 32 x 25)

unfoldable pub s0 : ℕ → ℕ
s0 x = bit_xor (bit_xor (rotate_right 32 x 7) (rotate_right 32 x 18)) (x / 2 ^ 3)

unfoldable pub s1 : ℕ → ℕ
s1 x = bit_xor (bit_xor (rotate_right 32 x 17) (rotate_right 32 x 19)) (x / 2 ^ 10)

-- `k`
abbrev pub constants : List ℕ
constants =
    0x428a2f98 ∷ 0x71374491 ∷ 0xb5c0fbcf ∷ 0xe9b5dba5 ∷ 0x3956c25b ∷ 0x59f111f1 ∷ 0x923f82a4
    ∷ 0xab1c5ed5 ∷ 0xd807aa98 ∷ 0x12835b01 ∷ 0x243185be ∷ 0x550c7dc3 ∷ 0x72be5d74 ∷ 0x80deb1fe
    ∷ 0x9bdc06a7 ∷ 0xc19bf174 ∷ 0xe49b69c1 ∷ 0xefbe4786 ∷ 0x0fc19dc6 ∷ 0x240ca1cc ∷ 0x2de92c6f
    ∷ 0x4a7484aa ∷ 0x5cb0a9dc ∷ 0x76f988da ∷ 0x983e5152 ∷ 0xa831c66d ∷ 0xb00327c8 ∷ 0xbf597fc7
    ∷ 0xc6e00bf3 ∷ 0xd5a79147 ∷ 0x06ca6351 ∷ 0x14292967 ∷ 0x27b70a85 ∷ 0x2e1b2138 ∷ 0x4d2c6dfc
    ∷ 0x53380d13 ∷ 0x650a7354 ∷ 0x766a0abb ∷ 0x81c2c92e ∷ 0x92722c85 ∷ 0xa2bfe8a1 ∷ 0xa81a664b
    ∷ 0xc24b8b70 ∷ 0xc76c51a3 ∷ 0xd192e819 ∷ 0xd6990624 ∷ 0xf40e3585 ∷ 0x106aa070 ∷ 0x19a4c116
    ∷ 0x1e376c08 ∷ 0x2748774c ∷ 0x34b0bcb5 ∷ 0x391c0cb3 ∷ 0x4ed8aa4a ∷ 0x5b9cca4f ∷ 0x682e6ff3
    ∷ 0x748f82ee ∷ 0x78a5636f ∷ 0x84c87814 ∷ 0x8cc70208 ∷ 0x90befffa ∷ 0xa4506ceb ∷ 0xbef9a3f7
    ∷ 0xc67178f2 ∷ []

-- `a` to `h`, in the order in which the next `ROUND` takes them: each call hands the registers on by
-- one place, so that they are back in place after eight.
pub record Regs : Type 0 where
  pub a : ℕ
  pub b : ℕ
  pub c : ℕ
  pub d : ℕ
  pub e : ℕ
  pub f : ℕ
  pub g : ℕ
  pub h : ℕ

-- The right-hand sides of the two assignments to `h`.
abbrev pub first_sum : ℕ → ℕ → ℕ → ℕ → ℕ → ℕ
first_sum k w e f g =
    add_word 32 (add_word 32 (add_word 32 (upper_s1 e) (ternary_selection e f g)) k) w

abbrev pub second_sum : ℕ → ℕ → ℕ → ℕ
second_sum a b c = add_word 32 (upper_s0 a) (ternary_majority a b c)

-- `ROUND` with the constant `k` and the word `w`.
unfoldable pub round : ℕ → ℕ → Regs → Regs
round k w s =
    let h = add_word 32 s.h (first_sum k w s.e s.f s.g) in
    record {
      a = add_word 32 h (second_sum s.a s.b s.c);
      b = s.a;
      c = s.b;
      d = s.c;
      e = add_word 32 s.d h;
      f = s.e;
      g = s.f;
      h = s.g;
    }

-- `INVROUND` on the registers in the order in which `ROUND` took them.
pub inv_round : ℕ → ℕ → Regs → Regs
inv_round k w s =
    let h = sub_word 32 s.a (second_sum s.b s.c s.d) in
    record {
      a = s.b;
      b = s.c;
      c = s.d;
      d = sub_word 32 s.e h;
      e = s.f;
      f = s.g;
      g = s.h;
      h = sub_word 32 h (first_sum k w s.f s.g s.h);
    }

-- The registers and `blk` of `ForwardTransform`.
pub record Forward : Type 0 where
  pub regs : Regs
  pub blk : List ℕ

-- The right-hand side of the assignment to `blk[i]` in `ROUND2`.
unfoldable pub expanded : ℕ → List ℕ → ℕ
unfolding s0 s1
expanded i blk =
    add_word 32
      (add_word 32 (add_word 32 (s1 (get_or blk (i - 2) 0)) (get_or blk (i - 7) 0))
        (s0 (get_or blk (i - 15) 0)))
      (get_or blk (i - 16) 0)

-- The calls of the first loop, and `ROUND2`.
unfoldable pub first_round : ℕ → Forward → Forward
first_round i s = record s { regs = round (get_or constants i 0) (get_or s.blk i 0) s.regs }

unfoldable pub round2 : ℕ → Forward → Forward
unfolding first_round expanded
round2 i s = first_round i (record s { blk = set s.blk i (expanded i s.blk) })

abbrev pub read_regs : List ℕ → Regs
read_regs v = record {
  a = get_or v 0 0;
  b = get_or v 1 0;
  c = get_or v 2 0;
  d = get_or v 3 0;
  e = get_or v 4 0;
  f = get_or v 5 0;
  g = get_or v 6 0;
  h = get_or v 7 0;
}

abbrev pub write_regs : Regs → List ℕ
write_regs s = s.a ∷ s.b ∷ s.c ∷ s.d ∷ s.e ∷ s.f ∷ s.g ∷ s.h ∷ []

-- What `blk` holds past the block is not read before it is written.
unfoldable pub forward_transform : List ℕ → List ℕ → List ℕ
unfolding first_round round2
forward_transform state block =
    let s : Forward = record { regs = read_regs state; blk = take 16 block ++ replicate 48 0 } in
    write_regs (for_up 48 16 round2 (for_up 16 0 first_round s)).regs

-- `blk` holds all 64 words here.
pub inverse_transform : List ℕ → List ℕ → List ℕ
unfolding inv_round
inverse_transform state blk =
    write_regs
      (for_down 64 0 (λ i. inv_round (get_or constants i 0) (get_or blk i 0)) (read_regs state))

unfoldable pub transform : List ℕ → List ℕ → List ℕ
unfolding forward_transform
transform state block =
    let b = forward_transform state (copy_in big 4 16 block) in
    add_word 32 (get_or state 0 0) (get_or b 0 0)
    ∷ add_word 32 (get_or state 1 0) (get_or b 1 0)
    ∷ add_word 32 (get_or state 2 0) (get_or b 2 0)
    ∷ add_word 32 (get_or state 3 0) (get_or b 3 0)
    ∷ add_word 32 (get_or state 4 0) (get_or b 4 0)
    ∷ add_word 32 (get_or state 5 0) (get_or b 5 0)
    ∷ add_word 32 (get_or state 6 0) (get_or b 6 0)
    ∷ add_word 32 (get_or state 7 0) (get_or b 7 0)
    ∷ []

-- What the two `Reset`s put in `m_hash`.
abbrev pub initial_hash : List ℕ
initial_hash =
    0x6a09e667 ∷ 0xbb67ae85 ∷ 0x3c6ef372 ∷ 0xa54ff53a ∷ 0x510e527f ∷ 0x9b05688c ∷ 0x1f83d9ab
    ∷ 0x5be0cd19 ∷ []

abbrev pub initial_hash_224 : List ℕ
initial_hash_224 =
    0xc1059ed8 ∷ 0x367cd507 ∷ 0x3070dd17 ∷ 0xf70e5939 ∷ 0xffc00b31 ∷ 0x68581511 ∷ 0x64f98fa7
    ∷ 0xbefa4fa4 ∷ []
