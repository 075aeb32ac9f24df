-- ===== src/Stream/Rc4/Permutation.antt =====
-- The array of the generator is a permutation of the bytes, whatever is done with it.
use drew.Prelude.{
  ℕ, zero, suc, ◌+◌, ◌-◌, bit_and, ◌≤◌, ◌<◌, ◌≡◌, ◌⊎◌, inl, inr, refl, sym, ap, ◌∙◌, List, [], ◌∷◌,
  length, get_or, set, length-set, get_or-set_self, get_or-set_ne, ◌==◌, if◌then◌else◌, arith,
}
use drew.Prelude.Loops.{for_up, for_up_inv, for_up_count, repeat, repeat_inv}
use drew.Stream.Rc4.{
  Keystream, swap_at, ks_reset, Mixing, mix_byte, ks_set_key, get_value, Filling, fill_byte,
  fill_buffer, Rc4, buffer_byte, reset, set_key,
}

-- How often a value stands in a list.
abbrev same : ℕ → ℕ → ℕ
same v x = if v == x then 1 else 0

abbrev pub count : ℕ → List ℕ → ℕ
count v [] = 0
count v (x ∷ xs) = same v x + count v xs

-- 256 entries, of which every byte is one.
pub record IsPermutation (s : List ℕ) : Type 0 where
  pub size : length s ≡ 256
  pub once : (v : ℕ) → v < 256 → count v s ≡ 1

count-set :
    (v : ℕ) (xs : List ℕ) (i u : ℕ)
    → i < length xs
    → count v (set xs i u) + same v (get_or xs i 0) ≡ count v xs + same v u
count-set v [] i u h = absurd (omega arith)
count-set v (x ∷ xs) zero u h = omega arith
count-set v (x ∷ xs) (suc i) u h = omega (arith, count-set v xs i u (omega arith))

equal_or_not : (a b : ℕ) → (a ≡ b) ⊎ ((a < b) ⊎ (b < a))
equal_or_not a b = omega arith

read_back :
    (s : List ℕ) (a b : ℕ) → a < length s → get_or (set s a (get_or s b 0)) b 0 ≡ get_or s b 0
read_back s a b h = elim (equal_or_not a b) [
  | inl same_place ↦
      ap (λ t. get_or (set s a (get_or s b 0)) t 0) (sym same_place)
      ∙ get_or-set_self s a (get_or s b 0) 0 h
  | inr (inl less) ↦ get_or-set_ne s a b (get_or s b 0) 0 (λ e. absurd (omega (arith, e)))
  | inr (inr more) ↦ get_or-set_ne s a b (get_or s b 0) 0 (λ e. absurd (omega (arith, e)))
]

count-swap_at :
    (v : ℕ) (s : List ℕ) (a b : ℕ)
    → a < length s
    → b < length s
    → count v (swap_at s a b) ≡ count v s
unfolding swap_at
count-swap_at v s a b p q = omega (
  arith,
  count-set v s a (get_or s b 0) p,
  count-set v (set s a (get_or s b 0)) b (get_or s a 0)
      (omega (arith, length-set s a (get_or s b 0))),
  ap (same v) (read_back s a b p),
)

swap_at-IsPermutation :
    (s : List ℕ) (a b : ℕ) → a < 256 → b < 256 → IsPermutation s → IsPermutation (swap_at s a b)
unfolding swap_at
swap_at-IsPermutation s a b p q h =
    let size = h.size in
    record {
      size =
          length-set (set s a (get_or s b 0)) b (get_or s a 0)
          ∙ length-set s a (get_or s b 0)
          ∙ h.size;
      once = λ v l. count-swap_at v s a b (omega arith) (omega arith) ∙ h.once v l;
    }

-- The bytes in order, which the array starts with.
abbrev iota : ℕ → ℕ → List ℕ
iota i zero = []
iota i (suc n) = i ∷ iota (i + 1) n

count-iota_below : (n i v : ℕ) → v < i → count v (iota i n) ≡ 0
count-iota_below zero i v h = refl
count-iota_below (suc n) i v h = ground (arith, count-iota_below n (i + 1) v (omega arith))

count-iota : (n i v : ℕ) → i ≤ v → v < i + n → count v (iota i n) ≡ 1
count-iota zero i v h k = absurd (omega arith)
count-iota (suc n) i v h k = elim (equal_or_not i v) [
  | inl here ↦ ground (arith, count-iota_below n (i + 1) v (omega arith))
  | inr (inl later) ↦ ground (arith, count-iota n (i + 1) v (omega arith) (omega arith))
  | inr (inr before) ↦ absurd (omega arith)
]

ks_reset_iota : ks_reset.s ≡ iota 0 256
unfolding ks_reset for_up
ks_reset_iota = refl

ks_reset-IsPermutation : IsPermutation (ks_reset.s)
ks_reset-IsPermutation =
    rw ks_reset_iota
      (record { size = refl; once = λ v l. count-iota 256 0 v (omega arith) (omega arith) })

mix_byte-IsPermutation :
    (key : List ℕ) (i : ℕ) (m : Mixing)
    → i < 256
    → IsPermutation (m.s)
    → IsPermutation ((mix_byte key i m).s)
unfolding mix_byte
mix_byte-IsPermutation key i m l h = swap_at-IsPermutation m.s i _ l (omega arith) h

ks_set_key-IsPermutation : (key : List ℕ) → IsPermutation ((ks_set_key key).s)
unfolding ks_set_key
ks_set_key-IsPermutation key =
    for_up_count (λ i m. IsPermutation (m.s)) (mix_byte key) 256 (mix_byte-IsPermutation key) 256 0
      (record { s = ks_reset.s; j = 0 }) refl ks_reset-IsPermutation

get_value-IsPermutation : (k : Keystream) → IsPermutation (k.s) → IsPermutation ((get_value k).1.s)
unfolding get_value
get_value-IsPermutation k h = swap_at-IsPermutation k.s _ _ (omega arith) (omega arith) h

fill_byte-IsPermutation :
    (i : ℕ) (f : Filling) → i < 256 → IsPermutation (f.ks.s) → IsPermutation ((fill_byte i f).ks.s)
unfolding fill_byte
fill_byte-IsPermutation i f l h = swap_at-IsPermutation f.ks.s i _ l (omega arith) h

pub fill_buffer-IsPermutation :
    (k : Keystream) → IsPermutation (k.s) → IsPermutation ((fill_buffer k).1.s)
unfolding fill_buffer
fill_buffer-IsPermutation k h =
    for_up_count (λ i f. IsPermutation (f.ks.s)) fill_byte 256 fill_byte-IsPermutation 256 0
      (record { ks = k; buf = [] }) refl h

-- After the key schedule for any key, with any number of values dropped, the array of the generator
-- has 256 entries and every byte is exactly one of them.
pub set_key-IsPermutation : (key : List ℕ) (c : Rc4) → IsPermutation ((set_key key c).ks.s)
unfolding set_key reset buffer_byte
set_key-IsPermutation key c =
    for_up_inv (λ f. IsPermutation (f.ks.s)) buffer_byte (λ i f h. get_value-IsPermutation f.ks h)
      (256 - start) start (record { ks = dropped; buf = c.buf })
      (repeat_inv (λ k. IsPermutation (k.s)) (λ k. (get_value k).1) get_value-IsPermutation c.drop
        (ks_set_key key) (ks_set_key-IsPermutation key))
  where
    start : ℕ
    start = bit_and c.drop 0xff

    dropped : Keystream
    dropped = repeat c.drop (λ k. (get_value k).1) (ks_set_key key)
