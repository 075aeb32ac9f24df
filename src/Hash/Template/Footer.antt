-- ===== src/Hash/Template/Footer.antt =====
-- The footer of the message, `Pad`'s `len[]` in memory: the number of bits in two words of type `T`.
use native.Mathlib.Nat.{
  pow-suc, mod-eq_of_lt, mod-lt, mul_assoc, mul_comm, mul_left_comm, mul-add, add-mul-mod_self_left,
  div-add-mod, div-lt_iff_lt-mul,
}
use mathlib.Core.List.{reverse, append-nil}
use drew.Prelude.{
  ℕ, zero, suc, ◌+◌, ◌-◌, ◌*◌, ◌/◌, ◌%◌, ◌^◌, ◌<◌, ◌≡◌, refl, sym, ap, ap₂, ◌∙◌, [], ◌∷◌, ◌++◌,
  bit_or, length, arith,
}
use drew.Prelude.Bits.{or-fields, pow-add}
use drew.Util.Endian.{Endianness, little, big, host_store, store, copy_out}
use drew.Util.Endian.Laws.{length-store}
use drew.Hash.Template.{Algorithm, length_bytes}
use drew.Hash.Template.Length.{two_words-lt}

-- A number of two fields in memory is its fields in memory, the low one first.
host_store-fields :
    (j k lo hi : ℕ)
    → lo < 256 ^ j
    → host_store (j + k) (lo + 256 ^ j * hi) ≡ host_store j lo ++ host_store k hi
unfolding host_store
host_store-fields zero k lo hi h =
    let none : 0 + k ≡ k = omega arith in
    let high : lo + 1 * hi ≡ hi = omega arith in
    ap (λ t. host_store t (lo + 1 * hi)) none ∙ ap (host_store k) high
host_store-fields (suc j) k lo hi h =
    let count : suc j + k ≡ suc (j + k) = omega arith in
    let power : 256 ^ suc j * hi ≡ 256 * (256 ^ j * hi) =
      ap (λ (t : ℕ). t * hi) (pow-suc 256 j ∙ mul_comm (256 ^ j) 256)
      ∙ mul_assoc 256 (256 ^ j) hi in
    let range : 256 ^ suc j ≡ 256 ^ j * 256 = pow-suc 256 j in
    let low : (lo + 256 ^ suc j * hi) % 256 ≡ lo % 256 = omega arith in
    let high : (lo + 256 ^ suc j * hi) / 256 ≡ lo / 256 + 256 ^ j * hi = omega arith in
    ap (λ t. host_store t (lo + 256 ^ suc j * hi)) count
    ∙ ap₂ (λ x y. x ∷ host_store (j + k) y) low high
    ∙ ap (λ t. lo % 256 ∷ t) (host_store-fields j k (lo / 256) hi (omega arith))

-- The eighth part of the range of a word.
eighth : (k : ℕ) → 0 < k → 256 ^ k ≡ 8 * 2 ^ (k * 8 - 3)
eighth zero h = absurd (omega arith)
eighth (suc zero) h = refl
eighth (suc (suc k)) h =
    let next : suc (suc k) * 8 - 3 ≡ suc k * 8 - 3 + 8 = omega arith in
    let power : 2 ^ (suc (suc k) * 8 - 3) ≡ 2 ^ (suc k * 8 - 3) * 256 =
      ap (λ (t : ℕ). 2 ^ t) next ∙ pow-add (suc k * 8 - 3) 8 in
    pow-suc 256 (suc k) ∙ ap (λ (t : ℕ). t * 256) (eighth (suc k) (omega arith)) ∙ (omega arith)

eight_mod : (q x : ℕ) → 0 < q → x * 8 % (8 * q) ≡ 8 * (x % q)
eight_mod q x h =
    let split : q * (x / q) + x % q ≡ x = div-add-mod x q in
    let product : 8 * q * (x / q) ≡ 8 * (q * (x / q)) = mul_assoc 8 q (x / q) in
    let below : x % q < q = mod-lt x h in
    let total : x * 8 ≡ 8 * (x % q) + 8 * q * (x / q) = omega arith in
    ap (λ (t : ℕ). t % (8 * q)) total
    ∙ add-mul-mod_self_left (8 * (x % q)) (8 * q) (x / q)
    ∙ mod-eq_of_lt (omega arith)

-- The bits of two words of bytes, in two words.
bits :
    (m q lo hi : ℕ)
    → m ≡ 8 * q
    → lo < m
    → lo * 8 % m + m * (hi * 8 % m + lo / q) ≡ 8 * (lo + m * hi) % (m * m)
bits m q lo hi e h =
    let w : ℕ = lo % q in
    let d : ℕ = lo / q in
    let v : ℕ = hi % q in
    let c : ℕ = hi / q in
    let some : 0 < q = omega arith in
    let lo_split : q * d + w ≡ lo = div-add-mod lo q in
    let hi_split : q * c + v ≡ hi = div-add-mod hi q in
    let lo_low : lo * 8 % m ≡ 8 * w = ap (λ (t : ℕ). lo * 8 % t) e ∙ eight_mod q lo some in
    let hi_low : hi * 8 % m ≡ 8 * v = ap (λ (t : ℕ). hi * 8 % t) e ∙ eight_mod q hi some in
    let high : m * hi ≡ m * (q * c) + m * v =
      ap (λ (t : ℕ). m * t) (sym hi_split) ∙ mul-add m (q * c) v in
    let word : m * d ≡ 8 * (q * d) = ap (λ (t : ℕ). t * d) e ∙ mul_assoc 8 q d in
    let carried : m * (8 * v + d) ≡ 8 * (m * v) + m * d =
      mul-add m (8 * v) d ∙ ap (λ (t : ℕ). t + m * d) (mul_left_comm m 8 v) in
    let square : m * m * c ≡ 8 * (m * (q * c)) =
      mul_assoc m m c
      ∙ ap (λ (t : ℕ). m * (t * c)) e
      ∙ ap (λ (t : ℕ). m * t) (mul_assoc 8 q c)
      ∙ mul_left_comm m 8 (q * c) in
    let total : 8 * (lo + m * hi) ≡ 8 * w + m * (8 * v + d) + m * m * c = omega arith in
    let w_below : w < q = mod-lt lo some in
    let v_below : v < q = mod-lt hi some in
    let d_below : d < 8 = (div-lt_iff_lt-mul {k = q} {x = lo} {y = 8} some).1 (omega arith) in
    ap₂ (λ (x y : ℕ). x + m * (y + d)) lo_low hi_low
    ∙ sym (
        ap (λ (t : ℕ). t % (m * m)) total
        ∙ add-mul-mod_self_left (8 * w + m * (8 * v + d)) (m * m) c
        ∙ mod-eq_of_lt (two_words-lt m (8 * w) (8 * v + d) (omega arith) (omega arith)))

-- Two words in memory, in either byte order.
two_words :
    (e : Endianness) (k lo hi n : ℕ)
    → lo < 256 ^ k
    → lo + 256 ^ k * hi ≡ n
    → (let bytes = copy_out little k (lo ∷ hi ∷ []) in
        elim e [ little ↦ bytes | big ↦ reverse bytes ])
      ≡ store e (k + k) n
unfolding store copy_out
two_words e k lo hi n h total = by_order e
  where
    bytes : host_store k lo ++ (host_store k hi ++ []) ≡ host_store (k + k) n
    bytes =
        ap (λ t. host_store k lo ++ t) (append-nil (host_store k hi))
        ∙ sym (host_store-fields k k lo hi h)
        ∙ ap (host_store (k + k)) total

    by_order :
        (e : Endianness)
        → elim e [
          | little ↦ host_store k lo ++ (host_store k hi ++ [])
          | big ↦ reverse (host_store k lo ++ (host_store k hi ++ []))
        ]
          ≡ store e (k + k) n
    by_order little = bytes
    by_order big = ap reverse bytes

-- The high word: the bits that the shift of the low word loses are those that it gains.
high_word :
    (k lo hi : ℕ)
    → 0 < k
    → lo < 256 ^ k
    → bit_or (hi * 2 ^ 3 % 256 ^ k) (lo / 2 ^ (k * 8 - 3)) ≡ hi * 8 % 256 ^ k + lo / 2 ^ (k * 8 - 3)
high_word k lo hi some h =
    let q : ℕ = 2 ^ (k * 8 - 3) in
    let range : 256 ^ k ≡ 8 * q = eighth k some in
    let q_some : 0 < q = omega arith in
    let gained : lo / q < 8 = (div-lt_iff_lt-mul {k = q} {x = lo} {y = 8} q_some).1 (omega arith) in
    let kept : hi * 8 % 256 ^ k ≡ hi % q * 8 =
      ap (λ (t : ℕ). hi * 8 % t) range ∙ eight_mod q hi q_some ∙ mul_comm 8 (hi % q) in
    ap (λ (t : ℕ). bit_or t (lo / q)) kept
    ∙ or-fields 3 (hi % q) (lo / q) gained
    ∙ ap (λ (t : ℕ). t + lo / q) (sym kept)

-- The footer is the number of bits, modulo the square of the words' range, as one number of two
-- words in the byte order.
pub length_bytes_lem :
    (a : Algorithm) (lo hi : ℕ)
    → lo < 256 ^ a.word_size
    → length_bytes a lo hi
      ≡ store a.endian
          (a.word_size + a.word_size)
          (8 * (lo + 256 ^ a.word_size * hi) % (256 ^ a.word_size * 256 ^ a.word_size))
unfolding length_bytes
length_bytes_lem a lo hi h =
    let k = a.word_size in
    let low : lo * 2 ^ 3 % 256 ^ k < 256 ^ k = mod-lt (lo * 8) (omega arith) in
    two_words (a.endian) k (lo * 2 ^ 3 % 256 ^ k)
      (bit_or (hi * 2 ^ 3 % 256 ^ k) (lo / 2 ^ (k * 8 - 3))) _ low
      (ap (λ (t : ℕ). lo * 8 % 256 ^ k + 256 ^ k * t) (high_word k lo hi (a.word_some) h)
        ∙ bits (256 ^ k) (2 ^ (k * 8 - 3)) lo hi (eighth k (a.word_some)) h)

pub length-length_bytes :
    (a : Algorithm) (lo hi : ℕ)
    → lo < 256 ^ a.word_size
    → length (length_bytes a lo hi) ≡ 2 * a.word_size
length-length_bytes a lo hi h =
    ap length (length_bytes_lem a lo hi h)
    ∙ length-store (a.endian) (a.word_size + a.word_size) _
    ∙ (omega arith)
