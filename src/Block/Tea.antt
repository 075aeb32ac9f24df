-- ===== src/Block/Tea.antt =====
-- impl/block/tea/tea.cc: TEA, 32 rounds on two 32-bit words under four key words.
pub mod Inverse
mod Tests
use drew.Prelude.{ℕ, ◌*◌, ◌+◌, ◌/◌, ◌%◌, ◌^◌, List, [], ◌∷◌, bit_xor, get_or}
use drew.Prelude.Loops.{repeat}
use drew.Util.Rotate.{add_word, sub_word}
use drew.Util.Endian.{big, copy_in}
use drew.Block.Interface.{on_words}

-- The object: `m_k[4]`.
pub record Tea : Type 0 where
  pub k0 : ℕ
  pub k1 : ℕ
  pub k2 : ℕ
  pub k3 : ℕ

-- The local variables of `Encrypt` and `Decrypt`: `v[0]`, `v[1]` and `sum`.
pub record State : Type 0 where
  pub v0 : ℕ
  pub v1 : ℕ
  pub sum : ℕ

abbrev pub delta : ℕ
delta = 0x9e3779b9

-- `((x << 4) + a) ^ (x + sum) ^ ((x >> 5) + b)`
pub mix : ℕ → ℕ → ℕ → ℕ → ℕ
mix x sum a b =
    bit_xor (bit_xor (add_word 32 (x * 2 ^ 4 % 2 ^ 32) a) (add_word 32 x sum))
      (add_word 32 (x / 2 ^ 5) b)

-- One of the two equal cycles in the loop body of `Encrypt`.
pub cycle : Tea → State → State
cycle t s =
    let sum = add_word 32 s.sum delta in
    let v0 = add_word 32 s.v0 (mix s.v1 sum t.k0 t.k1) in
    let v1 = add_word 32 s.v1 (mix v0 sum t.k2 t.k3) in record { v0 = v0; v1 = v1; sum = sum }

-- One of the two equal cycles in the loop body of `Decrypt`.
pub uncycle : Tea → State → State
uncycle t s =
    let v1 = sub_word 32 s.v1 (mix s.v0 s.sum t.k2 t.k3) in
    let v0 = sub_word 32 s.v0 (mix v1 s.sum t.k0 t.k1) in
    record { v0 = v0; v1 = v1; sum = sub_word 32 s.sum delta }

-- The loops: 16 rounds of two cycles each.
pub encrypt_words : Tea → List ℕ → List ℕ
encrypt_words t v =
    let s =
      repeat 16 (λ s. cycle t (cycle t s))
        (record { v0 = get_or v 0 0; v1 = get_or v 1 0; sum = 0 }) in
    s.v0 ∷ s.v1 ∷ []

pub decrypt_words : Tea → List ℕ → List ℕ
decrypt_words t v =
    let s =
      repeat 16 (λ s. uncycle t (uncycle t s))
        (record { v0 = get_or v 0 0; v1 = get_or v 1 0; sum = delta * 2 ^ 5 % 2 ^ 32 }) in
    s.v0 ∷ s.v1 ∷ []

pub set_key : List ℕ → Tea
set_key key =
    let k = copy_in big 4 4 key in
    record { k0 = get_or k 0 0; k1 = get_or k 1 0; k2 = get_or k 2 0; k3 = get_or k 3 0 }

pub encrypt : Tea → List ℕ → List ℕ
unfolding encrypt_words
encrypt t = on_words big 4 2 (encrypt_words t)

pub decrypt : Tea → List ℕ → List ℕ
unfolding decrypt_words
decrypt t = on_words big 4 2 (decrypt_words t)
