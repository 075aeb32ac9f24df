-- ===== src/Block/Blowfish.antt =====
-- impl/block/blowfish/blowfish.cc: the key schedule, and the 16 rounds that encrypt with `m_p` and
-- decrypt with `m_pd`, the same keys in reverse.
pub mod Tables
pub mod Rounds
pub mod Schedule
pub mod Inverse
mod Tests
use drew.Prelude.{
  ℕ, ◌+◌, ◌-◌, ◌*◌, ◌%◌, ◌^◌, List, [], ◌∷◌, bit_or, bit_xor, length, replicate, get_or, set,
}
use drew.Prelude.Loops.{for_up}
use drew.Util.Rotate.{add_word, get_byte}
use drew.Util.Endian.{big}
use drew.Block.Interface.{on_words}
use drew.Block.Feistel.{Halves, swap}
use drew.Block.Blowfish.Tables.{sbox, parray}

-- `m_s`, `m_p` and `m_pd`.
pub record Blowfish : Type 0 where
  pub s : List ℕ
  pub p : List ℕ
  pub pd : List ℕ

pub f : List ℕ → ℕ → ℕ
f s x =
    add_word 32
      (bit_xor (add_word 32 (get_or s (get_byte x 3) 0) (get_or s (0x100 + get_byte x 2) 0))
        (get_or s (0x200 + get_byte x 1) 0))
      (get_or s (0x300 + get_byte x 0) 0)

-- The body of the loop of `MainAlgorithm`, from `i`.
pub two_rounds : List ℕ → List ℕ → ℕ → Halves → Halves
unfolding f
two_rounds s p i d =
    let d0 = bit_xor d.l (get_or p i 0) in
    let d1 = bit_xor (bit_xor d.r (f s d0)) (get_or p (i + 1) 0) in
    record { l = bit_xor d0 (f s d1); r = d1 }

pub main_algorithm : List ℕ → List ℕ → Halves → Halves
unfolding two_rounds
main_algorithm s p d =
    let e = for_up 8 0 (λ j. two_rounds s p (2 * j)) d in
    record { l = bit_xor e.l (get_or p 16 0); r = bit_xor e.r (get_or p 17 0) }

-- `k = (k << 8) | key[(ival+j) % sz]`, four times, with `ival = 4 * i`.
pub key_word : List ℕ → ℕ → ℕ
key_word key i =
    for_up 4 0 (λ j k. bit_or (k * 2 ^ 8 % 2 ^ 32) (get_or key ((4 * i + j) % length key) 0)) 0

pub mix_key : List ℕ → List ℕ → List ℕ
unfolding key_word
mix_key key p = for_up 18 0 (λ i p. set p i (bit_xor (get_or p i 0) (key_word key i))) p

-- The variables of the loop that fills `m_p` and `m_pd`, and its body from `i = 2 * j`.
pub record Subkeys : Type 0 where
  pub d : Halves
  pub p : List ℕ
  pub pd : List ℕ

pub fill_subkeys : List ℕ → ℕ → Subkeys → Subkeys
unfolding main_algorithm
fill_subkeys s j k =
    let d = swap (main_algorithm s k.p k.d) in
    record {
      d = d;
      p = set (set k.p (2 * j) d.l) (2 * j + 1) d.r;
      pd = set (set k.pd (17 - 2 * j) d.l) (16 - 2 * j) d.r;
    }

-- Likewise of the loop that fills `m_s`.
pub record Boxes : Type 0 where
  pub d : Halves
  pub s : List ℕ

pub fill_boxes : List ℕ → ℕ → Boxes → Boxes
unfolding main_algorithm
fill_boxes p j b =
    let d = swap (main_algorithm b.s p b.d) in
    record { d = d; s = set (set b.s (2 * j) d.l) (2 * j + 1) d.r }

-- `SetKeyInternal`, for a key that is not empty. Every entry of `m_pd` is written before it is read.
pub subkeys : List ℕ → Subkeys
unfolding mix_key fill_subkeys
subkeys key =
    for_up 9 0 (fill_subkeys sbox)
      (record { d = record { l = 0; r = 0 }; p = mix_key key parray; pd = replicate 18 0 })

-- The keys that the plugin names have 1 to 56 bytes; the code divides by the length of the key.
pub set_key : List ℕ → Blowfish
unfolding subkeys fill_boxes
set_key key =
    let k = subkeys key in
    let b = for_up 512 0 (fill_boxes k.p) (record { d = k.d; s = sbox }) in
    record { s = b.s; p = k.p; pd = k.pd }

-- Both directions differ in the keys only. The halves are written out in the other order.
pub crypt_words : List ℕ → List ℕ → List ℕ → List ℕ
unfolding main_algorithm
crypt_words s p v =
    let d = main_algorithm s p (record { l = get_or v 0 0; r = get_or v 1 0 }) in d.r ∷ d.l ∷ []

pub encrypt : Blowfish → List ℕ → List ℕ
unfolding crypt_words
encrypt t = on_words big 4 2 (crypt_words t.s t.p)

pub decrypt : Blowfish → List ℕ → List ℕ
unfolding crypt_words
decrypt t = on_words big 4 2 (crypt_words t.s t.pd)
