-- ===== src/Block/Xtea.antt =====
-- impl/block/xtea/xtea.cc and xtea.hh: XTEA with the number of rounds that `init` was given.
pub mod Inverse
mod Tests
use drew.Prelude.{ℕ, ◌*◌, ◌/◌, ◌%◌, ◌^◌, List, [], ◌∷◌, bit_xor, bit_and, get_or}
use drew.Prelude.Loops.{repeat}
use drew.Util.Rotate.{add_word, sub_word}
use drew.Util.Endian.{big, copy_in}
use drew.Block.Interface.{on_words}

-- The object: `m_k[4]` and `rounds`.
pub record Xtea : Type 0 where
  pub k : List ℕ
  pub rounds : ℕ

-- The local variables of `Encrypt` and `Decrypt`.
pub record State : Type 0 where
  pub y : ℕ
  pub z : ℕ
  pub sum : ℕ

abbrev pub delta : ℕ
delta = 0x9e3779b9

-- `((x << 4) ^ (x >> 5)) + x`
pub scramble : ℕ → ℕ
scramble x = add_word 32 (bit_xor (x * 2 ^ 4 % 2 ^ 32) (x / 2 ^ 5)) x

-- What a round adds to `y` and to `z`: `m_k[sum & 3]` and `m_k[(sum >> 11) & 3]` take part.
pub mask_y : Xtea → ℕ → ℕ → ℕ
mask_y t z sum = bit_xor (scramble z) (add_word 32 sum (get_or t.k (bit_and sum 3) 0))

pub mask_z : Xtea → ℕ → ℕ → ℕ
mask_z t y sum = bit_xor (scramble y) (add_word 32 sum (get_or t.k (bit_and (sum / 2 ^ 11) 3) 0))

pub round : Xtea → State → State
round t s =
    let y = add_word 32 s.y (mask_y t s.z s.sum) in
    let sum = add_word 32 s.sum delta in
    let z = add_word 32 s.z (mask_z t y sum) in record { y = y; z = z; sum = sum }

pub unround : Xtea → State → State
unround t s =
    let z = sub_word 32 s.z (mask_z t s.y s.sum) in
    let sum = sub_word 32 s.sum delta in
    let y = sub_word 32 s.y (mask_y t z sum) in record { y = y; z = z; sum = sum }

-- `delta * rounds`, a `size_t` product of 64 bits that is cut to the 32 of `sum`.
pub last_sum : ℕ → ℕ
last_sum rounds = delta * rounds % 2 ^ 64 % 2 ^ 32

pub encrypt_words : Xtea → List ℕ → List ℕ
encrypt_words t v =
    let s = repeat t.rounds (round t) (record { y = get_or v 0 0; z = get_or v 1 0; sum = 0 }) in
    s.y ∷ s.z ∷ []

pub decrypt_words : Xtea → List ℕ → List ℕ
decrypt_words t v =
    let s =
      repeat t.rounds (unround t)
        (record { y = get_or v 0 0; z = get_or v 1 0; sum = last_sum t.rounds }) in
    s.y ∷ s.z ∷ []

-- `SetKeyInternal` on an object of `rounds` rounds.
pub set_key : ℕ → List ℕ → Xtea
set_key rounds key = record { k = copy_in big 4 4 key; rounds = rounds }

pub encrypt : Xtea → List ℕ → List ℕ
unfolding encrypt_words
encrypt t = on_words big 4 2 (encrypt_words t)

pub decrypt : Xtea → List ℕ → List ℕ
unfolding decrypt_words
decrypt t = on_words big 4 2 (decrypt_words t)
