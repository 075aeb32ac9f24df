-- ===== src/Block/Cast5.antt =====
-- impl/block/cast/cast5.cc and cast.hh: CAST-128, a Feistel cipher of 12 rounds or, for a key of
-- more than 80 bits, 16. Three round functions take turns.
pub mod Sboxes
pub mod Inverse
mod Tests
use drew.Prelude.{
  ℕ, ◌+◌, ◌-◌, ◌*◌, ◌/◌, Bool, true, false, List, [], ◌∷◌, ◌++◌, map, bit_and, bit_xor, length,
  take, drop, replicate, get_or, set, ltb, if◌then◌else◌,
}
use drew.Prelude.Loops.{for_up, for_down}
use drew.Util.Rotate.{rotate_left, add_word, sub_word, get_byte}
use drew.Util.Endian.{big, copy_in}
use drew.Block.Interface.{on_words}
use drew.Block.Feistel.{Halves, swap, step}
use drew.Block.Cast5.Sboxes.{sboxes}

pub record Cast5 : Type 0 where
  pub km : List ℕ
  pub kr : List ℕ
  pub longkey : Bool

-- `item(x)`: the byte of `val` that table `x` reads.
unfoldable pub item : ℕ → ℕ → ℕ
item val x = get_or (get_or sboxes x []) (get_byte val (3 - x)) 0

-- The three round functions on the half `x` with the masking key `km` and the rotation `kr`.
unfoldable pub f1 : ℕ → ℕ → ℕ → ℕ
unfolding item
f1 x km kr =
    let val = rotate_left 32 (add_word 32 km x) kr in
    add_word 32 (sub_word 32 (bit_xor (item val 0) (item val 1)) (item val 2)) (item val 3)

unfoldable pub f2 : ℕ → ℕ → ℕ → ℕ
unfolding item
f2 x km kr =
    let val = rotate_left 32 (bit_xor km x) kr in
    bit_xor (add_word 32 (sub_word 32 (item val 0) (item val 1)) (item val 2)) (item val 3)

unfoldable pub f3 : ℕ → ℕ → ℕ → ℕ
unfolding item
f3 x km kr =
    let val = rotate_left 32 (sub_word 32 km x) kr in
    sub_word 32 (bit_xor (add_word 32 (item val 0) (item val 1)) (item val 2)) (item val 3)

-- One round function with the keys of round `i`.
abbrev pub keyed : Cast5 → (ℕ → ℕ → ℕ → ℕ) → ℕ → ℕ → ℕ
keyed t f i x = f x (get_or t.km i 0) (get_or t.kr i 0)

-- The bodies of the two loops, of three rounds each from `i = 3 * j`.
pub three_rounds : Cast5 → ℕ → Halves → Halves
unfolding f1 f2 f3
three_rounds t j s =
    step (keyed t f3 (3 * j + 2)) (step (keyed t f2 (3 * j + 1)) (step (keyed t f1 (3 * j)) s))

pub three_rounds_back : Cast5 → ℕ → Halves → Halves
unfolding f1 f2 f3
three_rounds_back t j s =
    step (keyed t f1 (3 * j)) (step (keyed t f2 (3 * j + 1)) (step (keyed t f3 (3 * j + 2)) s))

-- `l ^= f1(r, m_km[15], m_kr[15]);`
pub sixteenth : Cast5 → Halves → Halves
unfolding f1
sixteenth t s = record s { l = bit_xor s.l (keyed t f1 15 s.r) }

-- `Encrypt` between the byte order conversions, by `m_longkey`.
pub encrypt_rounds : Cast5 → Bool → Halves → Halves
unfolding three_rounds sixteenth
encrypt_rounds t true s = sixteenth t (for_up 5 0 (three_rounds t) s)
encrypt_rounds t false s = swap (for_up 4 0 (three_rounds t) s)

-- `Decrypt`, likewise. The halves are written out in the other order.
pub decrypt_rounds : Cast5 → Bool → Halves → Halves
unfolding three_rounds_back sixteenth
decrypt_rounds t true s = swap (for_down 5 0 (three_rounds_back t) (swap (sixteenth t s)))
decrypt_rounds t false s = swap (for_down 4 0 (three_rounds_back t) s)

-- The halves in memory.
abbrev pub read_halves : List ℕ → Halves
read_halves v = record { l = get_or v 0 0; r = get_or v 1 0 }

abbrev pub write_halves : Halves → List ℕ
write_halves s = s.l ∷ s.r ∷ []

pub encrypt_words : Cast5 → List ℕ → List ℕ
unfolding encrypt_rounds
encrypt_words t v = write_halves (encrypt_rounds t t.longkey (read_halves v))

pub decrypt_words : Cast5 → List ℕ → List ℕ
unfolding decrypt_rounds
decrypt_words t v = write_halves (decrypt_rounds t t.longkey (read_halves v))

pub encrypt : Cast5 → List ℕ → List ℕ
unfolding encrypt_words
encrypt t = on_words big 4 2 (encrypt_words t)

pub decrypt : Cast5 → List ℕ → List ℕ
unfolding decrypt_words
decrypt t = on_words big 4 2 (decrypt_words t)

-- `sx(a, b)` and `sz(a, b)`: table `a` at byte `b ^ 3` of an array of words.
pub sub_byte : List ℕ → ℕ → ℕ → ℕ
sub_byte w a b =
    let n = bit_xor b 3 in
    get_or (get_or sboxes a []) (get_byte (get_or w (n / 4) 0) (bit_and n 3)) 0

-- `x ^ a ^ b ^ c ^ d ^ e`
abbrev pub xor_6 : ℕ → ℕ → ℕ → ℕ → ℕ → ℕ → ℕ
xor_6 x a b c d e = bit_xor (bit_xor (bit_xor (bit_xor (bit_xor x a) b) c) d) e

-- The array that is written is read again for the words after the first.
pub compute_z_set : List ℕ → List ℕ → List ℕ
unfolding sub_byte
compute_z_set z x =
    let sx = sub_byte x in
    let z = set z 0 (xor_6 (get_or x 0 0) (sx 4 13) (sx 5 15) (sx 6 12) (sx 7 14) (sx 6 8)) in
    let sz = sub_byte z in
    let z = set z 1 (xor_6 (get_or x 2 0) (sz 4 0) (sz 5 2) (sz 6 1) (sz 7 3) (sx 7 10)) in
    let sz = sub_byte z in
    let z = set z 2 (xor_6 (get_or x 3 0) (sz 4 7) (sz 5 6) (sz 6 5) (sz 7 4) (sx 4 9)) in
    let sz = sub_byte z in
    set z 3 (xor_6 (get_or x 1 0) (sz 4 10) (sz 5 9) (sz 6 11) (sz 7 8) (sx 5 11))

pub compute_x_set : List ℕ → List ℕ → List ℕ
unfolding sub_byte
compute_x_set x z =
    let sz = sub_byte z in
    let x = set x 0 (xor_6 (get_or z 2 0) (sz 4 5) (sz 5 7) (sz 6 4) (sz 7 6) (sz 6 0)) in
    let sx = sub_byte x in
    let x = set x 1 (xor_6 (get_or z 0 0) (sx 4 0) (sx 5 2) (sx 6 1) (sx 7 3) (sz 7 2)) in
    let sx = sub_byte x in
    let x = set x 2 (xor_6 (get_or z 1 0) (sx 4 7) (sx 5 6) (sx 6 5) (sx 7 4) (sz 4 1)) in
    let sx = sub_byte x in
    set x 3 (xor_6 (get_or z 3 0) (sx 4 10) (sx 5 9) (sx 6 11) (sx 7 8) (sz 5 3))

-- `p ^ q ^ r ^ s ^ t`
abbrev pub xor_5 : ℕ → ℕ → ℕ → ℕ → ℕ → ℕ
xor_5 p q r s t = bit_xor (bit_xor (bit_xor (bit_xor p q) r) s) t

pub compute_subkey_set_a : List ℕ → ℕ → ℕ → ℕ → ℕ → List ℕ
unfolding sub_byte
compute_subkey_set_a z a b c d =
    let sz = sub_byte z in
    xor_5 (sz 4 8) (sz 5 9) (sz 6 7) (sz 7 6) (sz 4 a)
    ∷ xor_5 (sz 4 10) (sz 5 11) (sz 6 5) (sz 7 4) (sz 5 b)
    ∷ xor_5 (sz 4 12) (sz 5 13) (sz 6 3) (sz 7 2) (sz 6 c)
    ∷ xor_5 (sz 4 14) (sz 5 15) (sz 6 1) (sz 7 0) (sz 7 d)
    ∷ []

pub compute_subkey_set_b : List ℕ → ℕ → ℕ → ℕ → ℕ → List ℕ
unfolding sub_byte
compute_subkey_set_b z a b c d =
    let sz = sub_byte z in
    xor_5 (sz 4 3) (sz 5 2) (sz 6 12) (sz 7 13) (sz 4 a)
    ∷ xor_5 (sz 4 1) (sz 5 0) (sz 6 14) (sz 7 15) (sz 5 b)
    ∷ xor_5 (sz 4 7) (sz 5 6) (sz 6 8) (sz 7 9) (sz 6 c)
    ∷ xor_5 (sz 4 5) (sz 5 4) (sz 6 10) (sz 7 11) (sz 7 d)
    ∷ []

-- The variables of the loop of `ComputeSubkeys`; `sk` is what has been written of it.
pub record Schedule : Type 0 where
  pub x : List ℕ
  pub z : List ℕ
  pub sk : List ℕ

pub sixteen_subkeys : Schedule → Schedule
unfolding compute_z_set compute_x_set compute_subkey_set_a compute_subkey_set_b
sixteen_subkeys s =
    let z = compute_z_set s.z s.x in
    let a = compute_subkey_set_a z 2 6 9 12 in
    let x = compute_x_set s.x z in
    let b = compute_subkey_set_b x 8 13 3 7 in
    let z = compute_z_set z x in
    let c = compute_subkey_set_b z 9 12 2 6 in
    let x = compute_x_set x z in
    let d = compute_subkey_set_a x 3 7 8 13 in
    record { x = x; z = z; sk = s.sk ++ a ++ b ++ c ++ d }

pub compute_subkeys : List ℕ → List ℕ
unfolding sixteen_subkeys
compute_subkeys k =
    let start : Schedule = record { x = copy_in big 4 4 k; z = replicate 4 0; sk = [] } in
    (sixteen_subkeys (sixteen_subkeys start)).sk

-- `SetKeyInternal`, for a key of 5 to 16 bytes.
pub set_key : List ℕ → Cast5
unfolding compute_subkeys
set_key key =
    let sk = compute_subkeys (key ++ replicate (16 - length key) 0) in
    record {
      km = take 16 sk;
      kr = map (λ k. bit_and k 0x1f) (drop 16 sk);
      longkey = ltb 10 (length key);
    }
