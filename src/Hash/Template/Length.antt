-- ===== src/Hash/Template/Length.antt =====
-- The two words of `m_len` count the bytes of the message, modulo the square of the words' range.
use native.Mathlib.Nat.{
  mod-eq_of_lt, mod_self, mod-lt, add-mod_right, mod-add-mod, mul-suc, mul_assoc, mul-le-mul_left,
  div-add-mod', mul-add-mod_self_right,
}
use drew.Prelude.{
  ℕ, suc, ◌+◌, ◌-◌, ◌*◌, ◌/◌, ◌%◌, ◌^◌, ◌≤◌, ◌<◌, ◌≡◌, ◌⊎◌, inl, inr, sym, ap, ◌∙◌, true, false,
  ltb, Bool-cases, arith,
}
use drew.Hash.Template.{Algorithm, Hash, add_length}

-- The sum of two words, and its carry.
no_carry : (m t len : ℕ) → t + len < m → (ltb ((t + len) % m) t ≡ false) × ((t + len) % m ≡ t + len)
no_carry m t len h = let low : (t + len) % m ≡ t + len = mod-eq_of_lt h in (ground arith, low)

carried :
    (m t len : ℕ)
    → t < m
    → len < m
    → m ≤ t + len
    → (ltb ((t + len) % m) t ≡ true) × ((t + len) % m + m ≡ t + len)
carried m t len p q h =
    let split : t + len ≡ t + len - m + m = omega arith in
    let low : (t + len) % m ≡ t + len - m =
      ap (λ (x : ℕ). x % m) split ∙ add-mod_right (t + len - m) m ∙ mod-eq_of_lt (omega arith) in
    (ground arith, omega arith)

low_or_carried : (m s : ℕ) → (s < m) ⊎ (m ≤ s)
low_or_carried m s = omega arith

-- A remainder of a remainder by a multiple.
pub mod-mod_mul : (x b n : ℕ) → x % (b * n) % n ≡ x % n
mod-mod_mul x b n =
    let split : x ≡ x / (b * n) * b * n + x % (b * n) =
      sym
        (ap (λ (t : ℕ). t + x % (b * n)) (mul_assoc (x / (b * n)) b n) ∙ div-add-mod' x (b * n)) in
    sym (ap (λ (t : ℕ). t % n) split ∙ mul-add-mod_self_right (x / (b * n) * b) n (x % (b * n)))

-- The two words as one number.
abbrev pub count : Algorithm → Hash → ℕ
count a s = s.len0 + 256 ^ a.word_size * s.len1

pub record IsCounted (a : Algorithm) (s : Hash) : Type 0 where
  pub low : s.len0 < 256 ^ a.word_size
  pub high : s.len1 < 256 ^ a.word_size

-- One word times another stays below the square.
pub two_words-lt : (m lo hi : ℕ) → lo < m → hi < m → lo + m * hi < m * m
two_words-lt m lo hi p q =
    let most : m * suc hi ≤ m * m = mul-le-mul_left m (omega arith) in
    let next : m * suc hi ≡ m * hi + m = mul-suc m hi in omega arith

-- The carry of the high word: below the top it counts, at the top the number starts again.
next_high :
    (m lo hi len lo' : ℕ)
    → hi < m
    → lo' < m
    → lo' + m ≡ lo + len
    → lo' + m * ((hi + 1) % m) ≡ (lo + m * hi + len) % (m * m)
next_high m lo hi len lo' p q e = elim (low_or_carried m (hi + 1)) [
  | inl inside ↦
      let step : (hi + 1) % m ≡ suc hi = mod-eq_of_lt inside ∙ (omega arith) in
      let product : m * suc hi ≡ m * hi + m = mul-suc m hi in
      let total : lo + m * hi + len ≡ lo' + m * suc hi = omega arith in
      ap (λ (t : ℕ). lo' + m * t) step
      ∙ sym (
          ap (λ (t : ℕ). t % (m * m)) total
          ∙ mod-eq_of_lt (two_words-lt m lo' (suc hi) q (omega arith)))
  | inr top ↦
      let at_top : hi + 1 ≡ m = omega arith in
      let step : (hi + 1) % m ≡ 0 = ap (λ (t : ℕ). t % m) at_top ∙ mod_self m in
      let product : m * suc hi ≡ m * hi + m = mul-suc m hi in
      let square : m * suc hi ≡ m * m = ap (λ (t : ℕ). m * t) (omega arith) in
      let total : lo + m * hi + len ≡ lo' + m * m = omega arith in
      let small = two_words-lt m lo' 0 q (omega arith) in
      ap (λ (t : ℕ). lo' + m * t) step
      ∙ sym (
          ap (λ (t : ℕ). t % (m * m)) total
          ∙ add-mod_right lo' (m * m)
          ∙ mod-eq_of_lt (omega arith)
          ∙ (omega arith))
]

-- Adding a length below the range of a word adds to the count, modulo the square of the range: the
-- carry is never lost.
pub add_length_lem :
    (a : Algorithm) (s : Hash) (len : ℕ)
    → IsCounted a s
    → len < 256 ^ a.word_size
    → count a (add_length a len s) ≡ (count a s + len) % (256 ^ a.word_size * 256 ^ a.word_size)
unfolding add_length
add_length_lem a s len c h = elim (low_or_carried (256 ^ a.word_size) (s.len0 + len)) [
  | inl below ↦
      let n = no_carry (256 ^ a.word_size) s.len0 len below in
      let total = two_words-lt (256 ^ a.word_size) (s.len0 + len) s.len1 below (c.high) in
      rw (n.0, n.1)
        (let sum : s.len0 + len + 256 ^ a.word_size * s.len1
              ≡ s.len0 + 256 ^ a.word_size * s.len1 + len =
            omega arith in
          sum ∙ sym (mod-eq_of_lt (omega arith)))
  | inr above ↦
      let n = carried (256 ^ a.word_size) s.len0 len (c.low) h above in
      rw (n.0) (
        next_high (256 ^ a.word_size) s.len0 s.len1 len ((s.len0 + len) % 256 ^ a.word_size)
          (c.high) (mod-lt (s.len0 + len) (omega arith)) (n.1))
]

pub add_length-IsCounted :
    (a : Algorithm) (s : Hash) (len : ℕ) → IsCounted a s → IsCounted a (add_length a len s)
unfolding add_length
add_length-IsCounted a s len c =
    let pos : 0 < 256 ^ a.word_size = omega (arith, c.low) in
    elim (Bool-cases (ltb ((s.len0 + len) % 256 ^ a.word_size) s.len0)) [
      | inl carry ↦
          rw carry (record { low = mod-lt (s.len0 + len) pos; high = mod-lt (s.len1 + 1) pos })
      | inr none ↦ rw none (record { low = mod-lt (s.len0 + len) pos; high = c.high })
    ]

-- Where in the block the next byte goes.
pub add_length-offset :
    (a : Algorithm) (s : Hash) (len : ℕ)
    → (add_length a len s).len0 % a.block_size ≡ (s.len0 % a.block_size + len) % a.block_size
unfolding add_length
add_length-offset a s len =
    ap (λ (t : ℕ). (s.len0 + len) % t % a.block_size) (a.block_divides)
    ∙ mod-mod_mul (s.len0 + len) (a.blocks) (a.block_size)
    ∙ sym (mod-add-mod s.len0 a.block_size len)
