-- ===== src/Block/Seed.antt =====
-- impl/block/seed/seed.cc: SEED, a Feistel cipher of 16 rounds on halves of 64 bits.
pub mod Tables
pub mod Inverse
mod Tests
use drew.Prelude.{
  ℕ, ◌+◌, ◌*◌, ◌/◌, ◌%◌, ◌^◌, Bool, true, false, List, [], ◌∷◌, bit_or, bit_xor, get_or,
  if◌then◌else◌,
}
use drew.Prelude.Loops.{for_up, for_down}
use drew.Util.Rotate.{rotate_left, rotate_right, add_word, sub_word, get_byte}
use drew.Util.Endian.{big, copy_in}
use drew.Block.Interface.{on_words}
use drew.Block.Feistel.{Halves, swap, step}
use drew.Block.Seed.Tables.{ss0, ss1, ss2, ss3}

-- `m_k`
pub record Seed : Type 0 where
  pub subkeys : List ℕ

-- The two words of 32 bits of one of 64, and back.
abbrev pub high : ℕ → ℕ
high x = x / 2 ^ 32 % 2 ^ 32

abbrev pub low : ℕ → ℕ
low x = x % 2 ^ 32

abbrev pub joined : ℕ → ℕ → ℕ
joined x y = bit_or (x * 2 ^ 32 % 2 ^ 64) y

-- The result is a `uint32_t`.
pub g : ℕ → ℕ
g x =
    bit_xor
      (bit_xor (bit_xor (get_or ss0 (get_byte x 0) 0) (get_or ss1 (get_byte x 1) 0))
        (get_or ss2 (get_byte x 2) 0))
      (get_or ss3 (get_byte x 3) 0)
    % 2 ^ 32

pub f : ℕ → ℕ → ℕ
unfolding g
f k r =
    let aa = bit_xor (bit_xor (bit_xor (high r) (high k)) (low r)) (low k) in
    let a0 = bit_xor (high r) (high k) in
    let ga = g aa in
    let g0 = add_word 32 ga a0 in
    let r0p = add_word 32 (g (add_word 32 (g g0) ga)) (g g0) in
    let r1p = g (add_word 32 (g g0) ga) in joined r0p r1p

-- `GenerateSubkey`
pub generate_subkey : List ℕ → ℕ → ℕ
unfolding g
generate_subkey k kci =
    joined (g (sub_word 32 (add_word 32 (get_or k 0 0) (get_or k 2 0)) kci))
      (g (add_word 32 (sub_word 32 (get_or k 1 0) (get_or k 3 0)) kci))

-- `OddKey` and `EvenKey`: what they leave in `k`.
pub odd_key : List ℕ → List ℕ
odd_key k =
    let sk = rotate_right 64 (joined (get_or k 0 0) (get_or k 1 0)) 8 in
    high sk ∷ low sk ∷ get_or k 2 0 ∷ get_or k 3 0 ∷ []

pub even_key : List ℕ → List ℕ
even_key k =
    let sk = rotate_left 64 (joined (get_or k 2 0) (get_or k 3 0)) 8 in
    get_or k 0 0 ∷ get_or k 1 0 ∷ high sk ∷ low sk ∷ []

-- The constants of the calls, which take turns.
abbrev pub constants : List ℕ
constants =
    0x9e3779b9 ∷ 0x3c6ef373 ∷ 0x78dde6e6 ∷ 0xf1bbcdcc ∷ 0xe3779b99 ∷ 0xc6ef3733 ∷ 0x8dde6e67
    ∷ 0x1bbcdccf ∷ 0x3779b99e ∷ 0x6ef3733c ∷ 0xdde6e678 ∷ 0xbbcdccf1 ∷ 0x779b99e3 ∷ 0xef3733c6
    ∷ 0xde6e678d ∷ 0xbcdccf1b ∷ []

pub calls : Bool → List ℕ → List ℕ → List ℕ
unfolding generate_subkey odd_key even_key
calls odd k [] = []
calls true k (c ∷ cs) = generate_subkey k c ∷ calls false (odd_key k) cs
calls false k (c ∷ cs) = generate_subkey k c ∷ calls true (even_key k) cs

-- `SetKeyInternal`, for a key of 16 bytes.
pub set_key : List ℕ → Seed
unfolding calls
set_key key = record { subkeys = calls true (copy_in big 4 4 key) constants }

-- The round function with the key of round `i`.
abbrev pub keyed : Seed → ℕ → ℕ → ℕ
keyed t i r = f (get_or t.subkeys i 0) r

-- `l ^= f(m_k[i], r);`
pub mask : Seed → ℕ → Halves → Halves
unfolding f
mask t i s = record s { l = bit_xor s.l (keyed t i s.r) }

pub encrypt_rounds : Seed → Halves → Halves
unfolding mask f
encrypt_rounds t s = mask t 15 (for_up 15 0 (λ i. step (keyed t i)) s)

pub decrypt_rounds : Seed → Halves → Halves
unfolding mask
decrypt_rounds t s = for_down 15 0 (λ i u. mask t i (swap u)) (mask t 15 s)

pub encrypt_words : Seed → List ℕ → List ℕ
unfolding encrypt_rounds
encrypt_words t v =
    let s = encrypt_rounds t (record { l = get_or v 0 0; r = get_or v 1 0 }) in s.l ∷ s.r ∷ []

pub decrypt_words : Seed → List ℕ → List ℕ
unfolding decrypt_rounds
decrypt_words t v =
    let s = decrypt_rounds t (record { l = get_or v 0 0; r = get_or v 1 0 }) in s.l ∷ s.r ∷ []

pub encrypt : Seed → List ℕ → List ℕ
unfolding encrypt_words
encrypt t = on_words big 8 2 (encrypt_words t)

pub decrypt : Seed → List ℕ → List ℕ
unfolding decrypt_words
decrypt t = on_words big 8 2 (decrypt_words t)
