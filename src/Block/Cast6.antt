-- ===== src/Block/Cast6.antt =====
-- impl/block/cast/cast6.cc: CAST-256, six forward and six backward rounds over four words, with the
-- round functions of CAST-128.
pub mod Inverse
mod Tests
use drew.Prelude.{
  ℕ, ◌+◌, ◌*◌, ◌/◌, ◌-◌, ◌%◌, ◌^◌, List, [], ◌∷◌, ◌++◌, bit_and, bit_xor, length, replicate, get_or,
  set,
}
use drew.Prelude.Loops.{for_up, for_down}
use drew.Util.Rotate.{add_word}
use drew.Util.Endian.{big, copy_in}
use drew.Block.Interface.{on_words}
use drew.Block.Cast5.{f1, f2, f3}

-- `m_km` and `m_kr`, arrays of four rows of twelve.
pub record Cast6 : Type 0 where
  pub km : List (List ℕ)
  pub kr : List (List ℕ)

-- An element of an array of rows.
abbrev pub entry : List (List ℕ) → ℕ → ℕ → ℕ
entry rows j i = get_or (get_or rows j []) i 0

abbrev pub set_entry : List (List ℕ) → ℕ → ℕ → ℕ → List (List ℕ)
set_entry rows j i v = set rows j (set (get_or rows j []) i v)

-- `data`
pub record Quad : Type 0 where
  pub a : ℕ
  pub b : ℕ
  pub c : ℕ
  pub d : ℕ

-- A round function with the keys `m_km[j][i]` and `m_kr[j][i]`.
abbrev pub keyed : Cast6 → (ℕ → ℕ → ℕ → ℕ) → ℕ → ℕ → ℕ → ℕ
keyed t f j i x = f x (entry t.km j i) (entry t.kr j i)

-- `Q(a, b, c, d, i)`
pub quad_round : Cast6 → ℕ → Quad → Quad
unfolding f1 f2 f3
quad_round t i s =
    let c = bit_xor s.c (keyed t f1 0 i s.d) in
    let b = bit_xor s.b (keyed t f2 1 i c) in
    let a = bit_xor s.a (keyed t f3 2 i b) in
    record { a = a; b = b; c = c; d = bit_xor s.d (keyed t f1 3 i a) }

-- `Qbar(a, b, c, d, i)`
pub quad_round_bar : Cast6 → ℕ → Quad → Quad
unfolding f1 f2 f3
quad_round_bar t i s =
    let d = bit_xor s.d (keyed t f1 3 i s.a) in
    let a = bit_xor s.a (keyed t f3 2 i s.b) in
    let b = bit_xor s.b (keyed t f2 1 i s.c) in
    record { a = a; b = b; c = bit_xor s.c (keyed t f1 0 i d); d = d }

pub encrypt_rounds : Cast6 → Quad → Quad
unfolding quad_round quad_round_bar
encrypt_rounds t s = for_up 6 6 (quad_round_bar t) (for_up 6 0 (quad_round t) s)

pub decrypt_rounds : Cast6 → Quad → Quad
unfolding quad_round quad_round_bar
decrypt_rounds t s = for_down 6 0 (quad_round_bar t) (for_down 6 6 (quad_round t) s)

abbrev pub read_quad : List ℕ → Quad
read_quad v = record { a = get_or v 0 0; b = get_or v 1 0; c = get_or v 2 0; d = get_or v 3 0 }

abbrev pub write_quad : Quad → List ℕ
write_quad s = s.a ∷ s.b ∷ s.c ∷ s.d ∷ []

pub encrypt_words : Cast6 → List ℕ → List ℕ
unfolding encrypt_rounds
encrypt_words t v = write_quad (encrypt_rounds t (read_quad v))

pub decrypt_words : Cast6 → List ℕ → List ℕ
unfolding decrypt_rounds
decrypt_words t v = write_quad (decrypt_rounds t (read_quad v))

pub encrypt : Cast6 → List ℕ → List ℕ
unfolding encrypt_words
encrypt t bs = on_words big 4 4 (encrypt_words t) bs

pub decrypt : Cast6 → List ℕ → List ℕ
unfolding decrypt_words
decrypt t bs = on_words big 4 4 (decrypt_words t) bs

-- `cm`, `cr`, `tm` and `tr` of `SetKeyInternal`.
pub record Masks : Type 0 where
  pub cm : ℕ
  pub cr : ℕ
  pub tm : List (List ℕ)
  pub tr : List (List ℕ)

-- The body of the inner loop that fills `tm` and `tr`.
pub next_mask : ℕ → ℕ → Masks → Masks
next_mask i j s = record {
  cm = add_word 32 s.cm 0x6ed9eba1;
  cr = bit_and ((s.cr + 17) % 2 ^ 8) 0x1f;
  tm = set_entry s.tm j i s.cm;
  tr = set_entry s.tr j i s.cr;
}

pub masks : Masks
unfolding next_mask
masks =
    for_up 24 0 (λ i. for_up 8 0 (next_mask i))
      (record {
        cm = 0x5a827999;
        cr = 19;
        tm = replicate 8 (replicate 24 0);
        tr = replicate 8 (replicate 24 0);
      })

-- One line of `W`: `k[to] ^= f(k[from], tm[j][i], tr[j][i])`.
pub mix_word : Masks → ℕ → (ℕ → ℕ → ℕ → ℕ) → ℕ → ℕ → ℕ → List ℕ → List ℕ
mix_word m i f to from j k =
    set k to (bit_xor (get_or k to 0) (f (get_or k from 0) (entry m.tm j i) (entry m.tr j i)))

-- `W(k, tr, tm, i)`
pub mix_key : Masks → ℕ → List ℕ → List ℕ
unfolding mix_word f1 f2 f3
mix_key m i k =
    let k = mix_word m i f1 6 7 0 k in
    let k = mix_word m i f2 5 6 1 k in
    let k = mix_word m i f3 4 5 2 k in
    let k = mix_word m i f1 3 4 3 k in
    let k = mix_word m i f2 2 3 4 k in
    let k = mix_word m i f3 1 2 5 k in let k = mix_word m i f1 0 1 6 k in mix_word m i f2 7 0 7 k

-- `keys` and the arrays of the object.
pub record Schedule : Type 0 where
  pub keys : List ℕ
  pub cipher : Cast6

-- The body of the last loop.
pub fill_keys : Masks → ℕ → Schedule → Schedule
unfolding mix_key
fill_keys m i s =
    let k = mix_key m (2 * i + 1) (mix_key m (2 * i) s.keys) in
    let km = set_entry s.cipher.km 0 i (get_or k 7 0) in
    let km = set_entry km 1 i (get_or k 5 0) in
    let km = set_entry km 2 i (get_or k 3 0) in
    let km = set_entry km 3 i (get_or k 1 0) in
    let kr = set_entry s.cipher.kr 0 i (bit_and (get_or k 0 0) 0x1f) in
    let kr = set_entry kr 1 i (bit_and (get_or k 2 0) 0x1f) in
    let kr = set_entry kr 2 i (bit_and (get_or k 4 0) 0x1f) in
    let kr = set_entry kr 3 i (bit_and (get_or k 6 0) 0x1f) in
    record { keys = k; cipher = record { km = km; kr = kr } }

-- `SetKeyInternal`, for a key of whole words, at most 8.
pub set_key : List ℕ → Cast6
unfolding fill_keys masks
set_key key =
    let words = length key / 4 in
    (for_up 12 0 (fill_keys masks) (record {
      keys = copy_in big 4 words key ++ replicate (8 - words) 0;
      cipher = record { km = replicate 4 (replicate 12 0); kr = replicate 4 (replicate 12 0) };
    })).cipher
