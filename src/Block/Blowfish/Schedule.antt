-- ===== src/Block/Blowfish/Schedule.antt =====
-- What the key schedule of Blowfish guarantees: 18 words in `m_p`, and their reverse in `m_pd`.
use drew.Prelude.{
  ℕ, zero, suc, ◌+◌, ◌-◌, ◌*◌, ◌%◌, ◌^◌, ◌<◌, ◌≡◌, ◌≢◌, ◌⊎◌, inl, inr, refl, sym, ap, ◌∙◌, List, [],
  ◌∷◌, length, get_or, set, length-set, get_or-set_self, get_or-set_ne, bit_or, bit_xor, arith,
}
use drew.Prelude.Bits.{xor-lt, or-lt}
use drew.Prelude.Loops.{for_up_inv, for_up_count}
use drew.Util.Rotate.{add_word-lt}
use drew.Util.Endian.{AllBelow}
use drew.Block.Interface.{get_or-lt}
use drew.Block.Feistel.{Halves, IsState, swap, swap-IsState}
use drew.Block.Blowfish.Tables.{sbox, parray}
use drew.Block.Blowfish.{
  Blowfish, f, two_rounds, main_algorithm, key_word, mix_key, Subkeys, fill_subkeys, subkeys,
  set_key,
}
use drew.Block.Blowfish.Rounds.{IsMirror}

AllBelow-set : (m : ℕ) (xs : List ℕ) (i v : ℕ) → AllBelow m xs → v < m → AllBelow m (set xs i v)
AllBelow-set m [] i v h k = tt
AllBelow-set m (x ∷ xs) zero v h k = (k, h.1)
AllBelow-set m (x ∷ xs) (suc i) v h k = (h.0, AllBelow-set m xs i v (h.1) k)

f-lt : (s : List ℕ) (x : ℕ) → f s x < 2 ^ 32
unfolding f
f-lt s x = add_word-lt 32 _ _

module _ (s p : List ℕ) (h : AllBelow (2 ^ 32) p) where
  key-lt : (i : ℕ) → get_or p i 0 < 2 ^ 32
  key-lt i = get_or-lt (2 ^ 32) i p (omega arith) h

  two_rounds-IsState : (i : ℕ) (d : Halves) → IsState d → IsState (two_rounds s p i d)
  unfolding two_rounds
  two_rounds-IsState i d k = record {
    l_word = xor-lt 32 _ _ (xor-lt 32 d.l _ (k.l_word) (key-lt i)) (f-lt s _);
    r_word = xor-lt 32 _ _ (xor-lt 32 d.r _ (k.r_word) (f-lt s _)) (key-lt (i + 1));
  }

  pub main_algorithm-IsState : (d : Halves) → IsState d → IsState (main_algorithm s p d)
  unfolding main_algorithm
  main_algorithm-IsState d k =
      let e =
        for_up_inv IsState (λ j. two_rounds s p (2 * j)) (λ j. two_rounds-IsState (2 * j)) 8 0 d
          k in
      record {
        l_word = xor-lt 32 _ _ (e.l_word) (key-lt 16);
        r_word = xor-lt 32 _ _ (e.r_word) (key-lt 17);
      }

-- What the loop over the subkeys has established after `j` rounds.
record IsFilled (j : ℕ) (k : Subkeys) : Type 0 where
  size_p : length k.p ≡ 18
  size_pd : length k.pd ≡ 18
  below_p : AllBelow (2 ^ 32) k.p
  below_pd : AllBelow (2 ^ 32) k.pd
  words : IsState k.d
  mirror : (i : ℕ) → i < 2 * j → get_or k.pd (17 - i) 0 ≡ get_or k.p i 0

-- Reading at the two places that a round has written, and elsewhere.
module _ (xs : List ℕ) (a b : ℕ) (u v : ℕ) where
  first_write : (i : ℕ) → a < length xs → a ≢ b → i ≡ a → get_or (set (set xs a u) b v) i 0 ≡ u
  first_write i p n e =
      ap (λ t. get_or (set (set xs a u) b v) t 0) e
      ∙ get_or-set_ne (set xs a u) b a v 0 (λ d. n (sym d))
      ∙ get_or-set_self xs a u 0 p

  second_write : (i : ℕ) → b < length xs → i ≡ b → get_or (set (set xs a u) b v) i 0 ≡ v
  second_write i q e =
      ap (λ t. get_or (set (set xs a u) b v) t 0) e
      ∙ get_or-set_self (set xs a u) b v 0 (omega (arith, length-set xs a u))

  no_write : (i : ℕ) → i ≢ a → i ≢ b → get_or (set (set xs a u) b v) i 0 ≡ get_or xs i 0
  no_write i d e =
      get_or-set_ne (set xs a u) b i v 0 (λ t. e (sym t))
      ∙ get_or-set_ne xs a i u 0 (λ t. d (sym t))

  two_writes-length : length (set (set xs a u) b v) ≡ length xs
  two_writes-length = length-set (set xs a u) b v ∙ length-set xs a u

  two_writes-AllBelow : (m : ℕ) → AllBelow m xs → u < m → v < m → AllBelow m (set (set xs a u) b v)
  two_writes-AllBelow m h p q = AllBelow-set m (set xs a u) b v (AllBelow-set m xs a u h p) q

place : (i j : ℕ) → i < 2 * (j + 1) → (i < 2 * j) ⊎ ((i ≡ 2 * j) ⊎ (i ≡ 2 * j + 1))
place i j h = omega arith

fill_subkeys_mirror :
    (s : List ℕ) (j : ℕ) (k : Subkeys)
    → j < 9
    → IsFilled j k
    → (i : ℕ) → i < 2 * (j + 1)
    → get_or (fill_subkeys s j k).pd (17 - i) 0 ≡ get_or (fill_subkeys s j k).p i 0
unfolding fill_subkeys
fill_subkeys_mirror s j k b h i l =
    let d = swap (main_algorithm s k.p k.d) in
    let size = h.size_p in
    let size' = h.size_pd in
    elim (place i j l) [
      | inl before ↦
          no_write k.pd (17 - 2 * j) (16 - 2 * j) d.l d.r (17 - i) (omega arith) (omega arith)
          ∙ h.mirror i before
          ∙ sym (no_write k.p (2 * j) (2 * j + 1) d.l d.r i (omega arith) (omega arith))
      | inr (inl first) ↦
          first_write k.pd (17 - 2 * j) (16 - 2 * j) d.l d.r (17 - i) (omega arith) (omega arith)
            (omega arith)
          ∙ sym (first_write k.p (2 * j) (2 * j + 1) d.l d.r i (omega arith) (omega arith) first)
      | inr (inr second) ↦
          second_write k.pd (17 - 2 * j) (16 - 2 * j) d.l d.r (17 - i) (omega arith) (omega arith)
          ∙ sym (second_write k.p (2 * j) (2 * j + 1) d.l d.r i (omega arith) second)
    ]

fill_subkeys-IsFilled :
    (s : List ℕ) (j : ℕ) (k : Subkeys)
    → j < 9
    → IsFilled j k
    → IsFilled (j + 1) (fill_subkeys s j k)
unfolding fill_subkeys
fill_subkeys-IsFilled s j k b h =
    let d = swap (main_algorithm s k.p k.d) in
    let w : IsState d = swap-IsState _ (main_algorithm-IsState s k.p (h.below_p) k.d (h.words)) in
    record {
      size_p = two_writes-length k.p (2 * j) (2 * j + 1) d.l d.r ∙ h.size_p;
      size_pd = two_writes-length k.pd (17 - 2 * j) (16 - 2 * j) d.l d.r ∙ h.size_pd;
      below_p =
          two_writes-AllBelow k.p (2 * j) (2 * j + 1) d.l d.r (2 ^ 32) (h.below_p) (w.l_word)
            (w.r_word);
      below_pd =
          two_writes-AllBelow k.pd (17 - 2 * j) (16 - 2 * j) d.l d.r (2 ^ 32) (h.below_pd)
            (w.l_word) (w.r_word);
      words = w;
      mirror = fill_subkeys_mirror s j k b h;
    }

key_word-lt : (key : List ℕ) (i : ℕ) → AllBelow 256 key → key_word key i < 2 ^ 32
unfolding key_word
key_word-lt key i h =
    for_up_inv (λ k. k < 2 ^ 32)
      (λ j k. bit_or (k * 2 ^ 8 % 2 ^ 32) (get_or key ((4 * i + j) % length key) 0))
      (λ j k l. or-lt 32 _ _ (omega arith) (byte j)) 4 0 0 (omega arith)
  where
    byte : (j : ℕ) → get_or key ((4 * i + j) % length key) 0 < 2 ^ 32
    byte j = let small = get_or-lt 256 ((4 * i + j) % length key) key (omega arith) h in omega arith

-- The array that the subkeys start from: 18 words.
record IsStart (p : List ℕ) : Type 0 where
  size : length p ≡ 18
  below : AllBelow (2 ^ 32) p

mix_key-IsStart : (key p : List ℕ) → AllBelow 256 key → IsStart p → IsStart (mix_key key p)
unfolding mix_key
mix_key-IsStart key p h start =
    for_up_inv IsStart (λ i p. set p i (bit_xor (get_or p i 0) (key_word key i)))
      (λ i q k. record {
        size = length-set q i _ ∙ k.size;
        below =
            AllBelow-set (2 ^ 32) q i _ (k.below) (
              xor-lt 32 _ _ (get_or-lt (2 ^ 32) i q (omega arith) (k.below)) (key_word-lt key i h));
      })
      18 0 p start

subkeys-IsFilled : (key : List ℕ) → AllBelow 256 key → IsFilled 9 (subkeys key)
unfolding subkeys
subkeys-IsFilled key h =
    let start = mix_key-IsStart key parray h (record { size = refl; below = omega arith }) in
    for_up_count IsFilled (fill_subkeys sbox) 9 (fill_subkeys-IsFilled sbox) 9 0 _ refl (record {
      size_p = start.size;
      size_pd = refl;
      below_p = start.below;
      below_pd = omega arith;
      words = record { l_word = omega arith; r_word = omega arith };
      mirror = λ i l. absurd (omega arith);
    })

-- What the key schedule leaves for encryption and decryption.
pub record IsKeyed (t : Blowfish) : Type 0 where
  pub keys : AllBelow (2 ^ 32) t.p
  pub reverse_keys : AllBelow (2 ^ 32) t.pd
  pub mirror : IsMirror t.p t.pd

-- For every key of bytes, the key schedule leaves words in `m_p` and in `m_pd`, and `m_pd` is `m_p`
-- in reverse.
pub set_key-IsKeyed : (key : List ℕ) → AllBelow 256 key → IsKeyed (set_key key)
unfolding set_key
set_key-IsKeyed key h =
    let k = subkeys-IsFilled key h in
    record { keys = k.below_p; reverse_keys = k.below_pd; mirror = λ i l. k.mirror i l }
