-- ===== src/Block/Rc2.antt =====
-- impl/block/rc2/rc2.cc: RC2, four 16-bit words mixed and mashed under 64 key words.
pub mod Inverse
mod Tests
pub mod Table
use drew.Prelude.{
  ℕ, ◌+◌, ◌-◌, ◌*◌, ◌%◌, ◌^◌, List, [], ◌∷◌, ◌++◌, bit_xor, bit_and, get_or, set, length, replicate,
}
use drew.Prelude.Loops.{for_up, for_down}
use drew.Util.Rotate.{add_word, sub_word, not_word, rotate_left, rotate_right}
use drew.Util.Endian.{little, copy_in}
use drew.Block.Interface.{on_words}
use drew.Block.Rc2.Table.{pitable}

-- The macro `R(i, x)`: `r[(i + x) & 3]`.
abbrev pub cell : List ℕ → ℕ → ℕ → ℕ
cell r i x = get_or r (bit_and (i + x) 3) 0

-- What `Mix` adds to `r[i]`: `m_k[j] + (R(i, 3) & R(i, 2)) + ((~R(i, 3)) & R(i, 1))`.
pub mix_term : List ℕ → List ℕ → ℕ → ℕ → ℕ
mix_term k r i j =
    get_or k j 0
    + bit_and (cell r i 3) (cell r i 2)
    + bit_and (not_word 16 (cell r i 3)) (cell r i 1)

-- `Mix(r, i, j, s)` and `RMix(r, i, j, s)`.
pub mix : List ℕ → ℕ → ℕ → ℕ → List ℕ → List ℕ
mix k i j s r = set r i (rotate_left 16 (add_word 16 (get_or r i 0) (mix_term k r i j)) s)

pub rmix : List ℕ → ℕ → ℕ → ℕ → List ℕ → List ℕ
rmix k i j s r =
    let r' = set r i (rotate_right 16 (get_or r i 0) s) in
    set r' i (sub_word 16 (get_or r' i 0) (mix_term k r' i j))

pub mix_round : List ℕ → ℕ → List ℕ → List ℕ
mix_round k j r = mix k 3 (j + 3) 5 (mix k 2 (j + 2) 3 (mix k 1 (j + 1) 2 (mix k 0 (j + 0) 1 r)))

pub rmix_round : List ℕ → ℕ → List ℕ → List ℕ
rmix_round k j r =
    rmix k 0 (j + 0) 1 (rmix k 1 (j + 1) 2 (rmix k 2 (j + 2) 3 (rmix k 3 (j + 3) 5 r)))

-- The key word that `Mash` picks: `m_k[R(i, 3) & 63]`.
pub mash_term : List ℕ → List ℕ → ℕ → ℕ
mash_term k r i = get_or k (bit_and (cell r i 3) 63) 0

pub mash : List ℕ → ℕ → List ℕ → List ℕ
mash k i r = set r i (add_word 16 (get_or r i 0) (mash_term k r i))

pub rmash : List ℕ → ℕ → List ℕ → List ℕ
rmash k i r = set r i (sub_word 16 (get_or r i 0) (mash_term k r i))

pub mash_round : List ℕ → List ℕ → List ℕ
mash_round k r = mash k 3 (mash k 2 (mash k 1 (mash k 0 r)))

pub rmash_round : List ℕ → List ℕ → List ℕ
rmash_round k r = rmash k 0 (rmash k 1 (rmash k 2 (rmash k 3 r)))

-- `Encrypt`: the counter `j` is 4 times the number of mixing rounds made before.
pub encrypt_words : List ℕ → List ℕ → List ℕ
encrypt_words k r =
    let r1 = mash_round k (for_up 5 0 (λ i. mix_round k (4 * i)) r) in
    let r2 = mash_round k (for_up 6 5 (λ i. mix_round k (4 * i)) r1) in
    for_up 5 11 (λ i. mix_round k (4 * i)) r2

-- `Decrypt`: `j` runs from 60 down to 0.
pub decrypt_words : List ℕ → List ℕ → List ℕ
decrypt_words k r =
    let r1 = rmash_round k (for_down 5 11 (λ i. rmix_round k (4 * i)) r) in
    let r2 = rmash_round k (for_down 6 5 (λ i. rmix_round k (4 * i)) r1) in
    for_down 5 0 (λ i. rmix_round k (4 * i)) r2

pub encrypt : List ℕ → List ℕ → List ℕ
unfolding encrypt_words
encrypt k = on_words little 2 4 (encrypt_words k)

pub decrypt : List ℕ → List ℕ → List ℕ
unfolding decrypt_words
decrypt k = on_words little 2 4 (decrypt_words k)

-- `SetKeyInternal`, for a key of 1 to 128 bytes. What `k` holds beyond the key before it is written
-- is never read; it is 0 here.
pub expand_up : ℕ → List ℕ → List ℕ
expand_up len k =
    for_up (128 - len) len
      (λ i k. set k i (get_or pitable ((get_or k (i - 1) 0 + get_or k (i - len) 0) % 2 ^ 8) 0)) k

pub expand_down : ℕ → List ℕ → List ℕ
expand_down t8 k =
    for_down (128 - t8) 0
      (λ i k. set k i (get_or pitable (bit_xor (get_or k (i + 1) 0) (get_or k (i + t8) 0)) 0)) k

pub set_key : List ℕ → List ℕ
unfolding expand_up expand_down
set_key key =
    let len = length key in
    let k1 = expand_up len (key ++ replicate (128 - len) 0) in
    let k2 = set k1 (128 - len) (get_or pitable (bit_and (get_or k1 (128 - len) 0) 0xff) 0) in
    copy_in little 2 64 (expand_down len k2)
