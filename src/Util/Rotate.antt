-- ===== src/Util/Rotate.antt =====
-- The word helpers of include/util.hh: rotation, the three ternary functions, `GetByte` and the
-- rounding helpers. A word of `w` bits is a number below 2 ^ w; what C cuts off is cut by `%`.
use native.Mathlib.Nat.{
  div-le_self, mul_comm, add_comm, zero-add, add-mul-div_right, div-eq_of_lt,
  add-mul-mod_self_right, mul-le-mul_right, mod-lt, one-le-pow, mod-eq_of_lt, mod-add-mod,
  add-mod-mod, add-mod_right, mul-lt-mul_of_pos_right, add-mul-mod_self_left, div-add-mod,
  div-add-mod', div-lt_iff_lt-mul,
}
use drew.Prelude.{
  ℕ, ◌+◌, ◌-◌, ◌*◌, ◌/◌, ◌%◌, ◌^◌, ◌≤◌, ◌<◌, ◌≡◌, ap, sym, ◌∙◌, arith, bit_and, bit_or, bit_xor,
}
use drew.Prelude.Bits.{or-fields, or_comm, or-lt, pow-add}

-- `RotateLeft<T>(x, n)` and `RotateRight<T>(x, n)` at a type of `w` bits.
unfoldable pub rotate_left : ℕ → ℕ → ℕ → ℕ
rotate_left w x n = bit_or (x * 2 ^ n % 2 ^ w) (x / 2 ^ (w - n))

unfoldable pub rotate_right : ℕ → ℕ → ℕ → ℕ
rotate_right w x n = bit_or (x / 2 ^ n) (x * 2 ^ (w - n) % 2 ^ w)

-- Unsigned addition and subtraction at `w` bits.
unfoldable pub add_word : ℕ → ℕ → ℕ → ℕ
add_word w a b = (a + b) % 2 ^ w

unfoldable pub sub_word : ℕ → ℕ → ℕ → ℕ
sub_word w a b = (a + (2 ^ w - b % 2 ^ w)) % 2 ^ w

-- `~x` at `w` bits.
unfoldable pub not_word : ℕ → ℕ → ℕ
not_word w x = 2 ^ w - 1 - x % 2 ^ w

-- `TernarySelection(x, y, z)` is `x ? y : z` on each bit.
unfoldable pub ternary_selection : ℕ → ℕ → ℕ → ℕ
ternary_selection x y z = bit_xor z (bit_and x (bit_xor y z))

unfoldable pub ternary_majority : ℕ → ℕ → ℕ → ℕ
ternary_majority x y z = bit_or (bit_and x y) (bit_and z (bit_xor x y))

unfoldable pub ternary_parity : ℕ → ℕ → ℕ → ℕ
ternary_parity x y z = bit_xor (bit_xor x y) z

-- `GetByte(x, n)`: byte `n` of a word, the lowest first.
unfoldable pub get_byte : ℕ → ℕ → ℕ
get_byte x n = x / 2 ^ (n * 8) % 2 ^ 8

pub add_word-lt : (w a b : ℕ) → add_word w a b < 2 ^ w
unfolding add_word
add_word-lt w a b = mod-lt (a + b) (one-le-pow w 2 (omega arith))

-- Wrapping arithmetic modulo any positive number, with the second summand reduced.
two-pow-pos : (n : ℕ) → 0 < 2 ^ n
two-pow-pos n = one-le-pow n 2 (omega arith)

wrap_sub-add : (m a b : ℕ) → a < m → b < m → ((a + b) % m + (m - b)) % m ≡ a
wrap_sub-add m a b p q = rw mod-add-mod (ap (λ (t : ℕ). t % m) whole ∙ fits)
  where
    whole : a + b + (m - b) ≡ a + m
    whole = omega arith

    fits : (a + m) % m ≡ a
    fits = rw add-mod_right (mod-eq_of_lt p)

wrap_add-sub : (m a b : ℕ) → a < m → b < m → ((a + (m - b)) % m + b) % m ≡ a
wrap_add-sub m a b p q = rw mod-add-mod (ap (λ (t : ℕ). t % m) whole ∙ fits)
  where
    whole : a + (m - b) + b ≡ a + m
    whole = omega arith

    fits : (a + m) % m ≡ a
    fits = rw add-mod_right (mod-eq_of_lt p)

-- Wrapping subtraction undoes wrapping addition of the same number, and the other way round.
pub sub_word-add_word : (w a b : ℕ) → a < 2 ^ w → sub_word w (add_word w a b) b ≡ a
unfolding add_word sub_word
sub_word-add_word w a b h =
    rw (← add-mod-mod a b (2 ^ w))
      (wrap_sub-add (2 ^ w) a (b % 2 ^ w) h (mod-lt b (one-le-pow w 2 (omega arith))))

pub add_word-sub_word : (w a b : ℕ) → a < 2 ^ w → add_word w (sub_word w a b) b ≡ a
unfolding add_word sub_word
add_word-sub_word w a b h =
    rw (← add-mod-mod ((a + (2 ^ w - b % 2 ^ w)) % 2 ^ w) b (2 ^ w))
      (wrap_add-sub (2 ^ w) a (b % 2 ^ w) h (mod-lt b (one-le-pow w 2 (omega arith))))

-- Without a borrow it is subtraction.
pub sub_word_lem : (w a b : ℕ) → b ≤ a → a < 2 ^ w → sub_word w a b ≡ a - b
unfolding sub_word
sub_word_lem w a b le h =
    let small : b % 2 ^ w ≡ b = mod-eq_of_lt (omega arith) in
    let split : a + (2 ^ w - b) ≡ a - b + 2 ^ w = omega arith in
    ap (λ (t : ℕ). (a + (2 ^ w - t)) % 2 ^ w) small
    ∙ ap (λ (t : ℕ). t % 2 ^ w) split
    ∙ add-mod_right (a - b) (2 ^ w)
    ∙ mod-eq_of_lt (omega arith)

pub sub_word-lt : (w a b : ℕ) → sub_word w a b < 2 ^ w
unfolding sub_word
sub_word-lt w a b = mod-lt (a + (2 ^ w - b % 2 ^ w)) (one-le-pow w 2 (omega arith))

-- A product of two factors splits a number below it into a quotient and a remainder; scaling
-- moves the remainder to the top.
rotate_high : (P Q x : ℕ) → 0 < Q → 0 < P → x < P * Q → (x * P % (P * Q) ≡ x % Q * P) × (x / Q < P)
rotate_high P Q x q p h = (top ∙ mod-eq_of_lt low, below)
  where
    below : x / Q < P
    below = (div-lt_iff_lt-mul q).1 h

    low : x % Q * P < P * Q
    low = omega (arith, mul-lt-mul_of_pos_right {k = P} (mod-lt x q) p)

    split : x * P ≡ x % Q * P + P * Q * (x / Q)
    split = omega (arith, ap (λ (t : ℕ). t * P) (div-add-mod x Q))

    top : x * P % (P * Q) ≡ x % Q * P % (P * Q)
    top = rw split (add-mul-mod_self_left (x % Q * P) (P * Q) (x / Q))

rotate_left-eq :
    (w n m x : ℕ)
    → n + m ≡ w
    → x < 2 ^ w
    → (bit_or (x * 2 ^ n % 2 ^ w) (x / 2 ^ m) ≡ x % 2 ^ m * 2 ^ n + x / 2 ^ m) × (x / 2 ^ m < 2 ^ n)
rotate_left-eq w n m x e h =
    rw (← e, pow-add)
      (let high = rotate_high (2 ^ n) (2 ^ m) x (two-pow-pos m) (two-pow-pos n) bound in
        (rw (high.0) (or-fields n (x % 2 ^ m) (x / 2 ^ m) (high.1)), high.1))
  where
    bound : x < 2 ^ n * 2 ^ m
    bound = rw (← pow-add n m, e) h

-- Reading the two fields of `l << n | h` back.
fields : (n l h : ℕ) → h < 2 ^ n → ((l * 2 ^ n + h) / 2 ^ n ≡ l) × ((l * 2 ^ n + h) % 2 ^ n ≡ h)
fields n l h p = rw (add_comm (l * 2 ^ n) h) (
  add-mul-div_right h l (two-pow-pos n) ∙ ap (λ (t : ℕ). t + l) (div-eq_of_lt p) ∙ zero-add l,
  add-mul-mod_self_right h l (2 ^ n) ∙ mod-eq_of_lt p,
)

rotate_back :
    (w n m l h : ℕ)
    → n + m ≡ w
    → l < 2 ^ m
    → h < 2 ^ n
    → bit_or ((l * 2 ^ n + h) / 2 ^ n) ((l * 2 ^ n + h) * 2 ^ m % 2 ^ w) ≡ h * 2 ^ m + l
rotate_back w n m l h e p q =
    rw ((fields n l h q).0, modulus)
      (rw ((rotate_high (2 ^ m) (2 ^ n) (l * 2 ^ n + h) (two-pow-pos n) (two-pow-pos m) bound).0)
        (rw ((fields n l h q).1) (or_comm l (h * 2 ^ m) ∙ or-fields m h l p)))
  where
    modulus : 2 ^ w ≡ 2 ^ m * 2 ^ n
    modulus = rw (← e, pow-add) (mul_comm (2 ^ n) (2 ^ m))

    bound : l * 2 ^ n + h < 2 ^ m * 2 ^ n
    bound = omega (arith, mul-le-mul_right (2 ^ n) p)

pub rotate_right-rotate_left :
    (w n x : ℕ) → n < w → x < 2 ^ w → rotate_right w (rotate_left w x n) n ≡ x
unfolding rotate_left rotate_right
rotate_right-rotate_left w n x p h = rw (left.0) (
    rotate_back w n (w - n) (x % 2 ^ (w - n)) (x / 2 ^ (w - n)) (omega arith)
      (mod-lt x (two-pow-pos (w - n))) (left.1)
    ∙ div-add-mod' x (2 ^ (w - n)))
  where
    left :
        (bit_or (x * 2 ^ n % 2 ^ w) (x / 2 ^ (w - n)) ≡ x % 2 ^ (w - n) * 2 ^ n + x / 2 ^ (w - n))
        × (x / 2 ^ (w - n) < 2 ^ n)
    left = rotate_left-eq w n (w - n) x (omega arith) h

rotate_right-eq : (w n x : ℕ) → n ≤ w → rotate_right w x n ≡ rotate_left w x (w - n)
unfolding rotate_left rotate_right
rotate_right-eq w n x p =
    or_comm (x / 2 ^ n) (x * 2 ^ (w - n) % 2 ^ w)
    ∙ ap (λ (t : ℕ). bit_or (x * 2 ^ (w - n) % 2 ^ w) (x / 2 ^ t)) back
  where
    back : n ≡ w - (w - n)
    back = omega arith

rotate_left-rotate_right :
    (w n x : ℕ) → 0 < n → n < w → x < 2 ^ w → rotate_left w (rotate_right w x n) n ≡ x
rotate_left-rotate_right w n x o p h = rw (rotate_right-eq w n x (omega arith)) (
    ap (λ (t : ℕ). rotate_left w (rotate_left w x (w - n)) t) back
    ∙ sym (rotate_right-eq w (w - n) (rotate_left w x (w - n)) (omega arith))
    ∙ rotate_right-rotate_left w (w - n) x (omega arith) h)
  where
    back : n ≡ w - (w - n)
    back = omega arith

-- For every word and every distance strictly between 0 and the width, `RotateRight` undoes
-- `RotateLeft` and `RotateLeft` undoes `RotateRight`.
pub rotations_inverse :
    (w n x : ℕ)
    → 0 < n
    → n < w
    → x < 2 ^ w
    → (rotate_right w (rotate_left w x n) n ≡ x) × (rotate_left w (rotate_right w x n) n ≡ x)
rotations_inverse w n x o p h =
    (rotate_right-rotate_left w n x p h, rotate_left-rotate_right w n x o p h)

pub rotate_left-lt : (w n x : ℕ) → x < 2 ^ w → rotate_left w x n < 2 ^ w
unfolding rotate_left
rotate_left-lt w n x h =
    or-lt w (x * 2 ^ n % 2 ^ w) (x / 2 ^ (w - n)) (mod-lt (x * 2 ^ n) (two-pow-pos w))
      (omega (arith, div-le_self x (2 ^ (w - n))))

pub rotate_right-lt : (w n x : ℕ) → x < 2 ^ w → rotate_right w x n < 2 ^ w
unfolding rotate_right
rotate_right-lt w n x h =
    or-lt w (x / 2 ^ n) (x * 2 ^ (w - n) % 2 ^ w) (omega (arith, div-le_self x (2 ^ n)))
      (mod-lt (x * 2 ^ (w - n)) (two-pow-pos w))
