-- ===== src/Block/Cast5/Inverse.antt =====
-- CAST-128: decryption undoes encryption for either number of rounds and under every key.
use drew.Prelude.{
  ℕ, ◌+◌, ◌*◌, ◌^◌, ◌<◌, ◌≡◌, refl, ap, ◌∙◌, Bool, true, false, ◌&&◌, List, [], ◌∷◌, length, ltb,
  ltb→lt, arith,
}
use drew.Prelude.Bits.{xor-lt, xor_cancel}
use drew.Prelude.Loops.{for_up, for_down, for_up_inv, for_down_inv, for_down-for_up}
use drew.Util.Rotate.{add_word-lt, sub_word-lt, get_byte}
use drew.Util.Endian.{big, AllBelow, IsBlock, IsWords}
use drew.Block.Interface.{BlockCipher, WordCipher, of_words, on_words_undo, get_or-lt, two_reads}
use drew.Block.Feistel.{Halves, IsState, swap-IsState, swap, step, step_undo, for_down-swap}
use drew.Block.Cast5.Sboxes.{sbox_3}
use drew.Block.Cast5.{
  Cast5, item, f1, f2, f3, keyed, three_rounds, three_rounds_back, sixteenth, encrypt_rounds,
  decrypt_rounds, read_halves, write_halves, encrypt_words, decrypt_words, encrypt, decrypt,
}

-- Every entry of a table is a word.
all_below : ℕ → List ℕ → Bool
all_below m [] = true
all_below m (x ∷ xs) = ltb x m && all_below m xs

both : (b c : Bool) → (b && c) ≡ true → (b ≡ true) × (c ≡ true)
both true c h = (refl, h)
both false c h = ground arith

all_below_lem : (m : ℕ) (xs : List ℕ) → all_below m xs ≡ true → AllBelow m xs
unfolding all_below
all_below_lem m [] h = tt
all_below_lem m (x ∷ xs) h =
    let (head, tail) = both (ltb x m) (all_below m xs) h in
    (ltb→lt x m head, all_below_lem m xs tail)

item_3-lt : (val : ℕ) → item val 3 < 2 ^ 32
unfolding item all_below
item_3-lt val =
    get_or-lt (2 ^ 32) (get_byte val 0) sbox_3 (omega arith) (all_below_lem (2 ^ 32) sbox_3 refl)

pub f1-lt : (x km kr : ℕ) → f1 x km kr < 2 ^ 32
unfolding f1
f1-lt x km kr = add_word-lt 32 _ _

pub f2-lt : (x km kr : ℕ) → f2 x km kr < 2 ^ 32
unfolding f2
f2-lt x km kr = xor-lt 32 _ _ (add_word-lt 32 _ _) (item_3-lt _)

pub f3-lt : (x km kr : ℕ) → f3 x km kr < 2 ^ 32
unfolding f3
f3-lt x km kr = sub_word-lt 32 _ _

step-IsState :
    (g : ℕ → ℕ) → ((x : ℕ) → g x < 2 ^ 32) → (s : Halves) → IsState s → IsState (step g s)
unfolding step
step-IsState g k s h = record {
  l_word = h.r_word;
  r_word = xor-lt 32 s.l (g s.r) (h.l_word) (k s.r);
}

module _ (t : Cast5) where
  three_rounds-IsState : (j : ℕ) (s : Halves) → IsState s → IsState (three_rounds t j s)
  unfolding three_rounds
  three_rounds-IsState j s h =
      step-IsState _ (λ x. f3-lt x _ _) _
        (step-IsState _ (λ x. f2-lt x _ _) _ (step-IsState _ (λ x. f1-lt x _ _) s h))

  three_rounds_back-IsState : (j : ℕ) (s : Halves) → IsState s → IsState (three_rounds_back t j s)
  unfolding three_rounds_back
  three_rounds_back-IsState j s h =
      step-IsState _ (λ x. f1-lt x _ _) _
        (step-IsState _ (λ x. f2-lt x _ _) _ (step-IsState _ (λ x. f3-lt x _ _) s h))

  sixteenth-IsState : (s : Halves) → IsState s → IsState (sixteenth t s)
  unfolding sixteenth
  sixteenth-IsState s h = record {
    l_word = xor-lt 32 s.l _ (h.l_word) (f1-lt s.r _ _);
    r_word = h.r_word;
  }

  -- Three rounds are undone between swaps.
  three_rounds_undo :
      (j : ℕ) (s : Halves) → three_rounds_back t j (swap (three_rounds t j s)) ≡ swap s
  unfolding three_rounds three_rounds_back
  three_rounds_undo j s =
      let s1 = step (keyed t f1 (3 * j)) s in
      ap (λ u. step (keyed t f1 (3 * j)) (step (keyed t f2 (3 * j + 1)) u))
        (step_undo (keyed t f3 (3 * j + 2)) (step (keyed t f2 (3 * j + 1)) s1))
      ∙ ap (step (keyed t f1 (3 * j))) (step_undo (keyed t f2 (3 * j + 1)) s1)
      ∙ step_undo (keyed t f1 (3 * j)) s

  -- All rounds are undone between swaps.
  rounds_undo :
      (n : ℕ) (s : Halves)
      → for_down n 0 (three_rounds_back t) (swap (for_up n 0 (three_rounds t) s)) ≡ swap s
  unfolding swap
  rounds_undo n s =
      for_down-swap (three_rounds_back t) (λ j u. swap (three_rounds_back t j (swap u)))
        (λ j u. refl) n 0 (for_up n 0 (three_rounds t) s)
      ∙ ap swap (
          for_down-for_up {0, 0} (λ u. Unit) (three_rounds t)
            (λ j u. swap (three_rounds_back t j (swap u))) (λ j u k. tt)
            (λ j u k. ap swap (three_rounds_undo j u)) n 0 s tt)

  sixteenth_undo : (s : Halves) → sixteenth t (sixteenth t s) ≡ s
  unfolding sixteenth
  sixteenth_undo s = λ i. record s { l = xor_cancel s.l (keyed t f1 15 s.r) i }

  decrypt_rounds-encrypt_rounds :
      (long : Bool) (s : Halves) → decrypt_rounds t long (encrypt_rounds t long s) ≡ s
  unfolding encrypt_rounds decrypt_rounds swap
  decrypt_rounds-encrypt_rounds true s =
      ap (λ u. swap (for_down 5 0 (three_rounds_back t) (swap u)))
        (sixteenth_undo (for_up 5 0 (three_rounds t) s))
      ∙ ap swap (rounds_undo 5 s)
  decrypt_rounds-encrypt_rounds false s = ap swap (rounds_undo 4 s)

  encrypt_rounds-IsState :
      (long : Bool) (s : Halves) → IsState s → IsState (encrypt_rounds t long s)
  unfolding encrypt_rounds
  encrypt_rounds-IsState true s h =
      sixteenth-IsState _ (for_up_inv IsState (three_rounds t) three_rounds-IsState 5 0 s h)
  encrypt_rounds-IsState false s h =
      swap-IsState _ (for_up_inv IsState (three_rounds t) three_rounds-IsState 4 0 s h)

  decrypt_rounds-IsState :
      (long : Bool) (s : Halves) → IsState s → IsState (decrypt_rounds t long s)
  unfolding decrypt_rounds
  decrypt_rounds-IsState true s h = swap-IsState _ (
      for_down_inv IsState (three_rounds_back t) three_rounds_back-IsState 5 0 _
        (swap-IsState _ (sixteenth-IsState s h)))
  decrypt_rounds-IsState false s h =
      swap-IsState _ (for_down_inv IsState (three_rounds_back t) three_rounds_back-IsState 4 0 s h)

read_halves-IsState : (v : List ℕ) → IsWords 4 2 v → IsState (read_halves v)
read_halves-IsState v h = record {
  l_word = get_or-lt (2 ^ 32) 0 v (omega arith) (h.below);
  r_word = get_or-lt (2 ^ 32) 1 v (omega arith) (h.below);
}

write_halves-IsWords : (s : Halves) → IsState s → IsWords 4 2 (write_halves s)
write_halves-IsWords s h = record { size = refl; below = (h.l_word, (h.r_word, tt)) }

encrypt_words-IsWords : (t : Cast5) (v : List ℕ) → IsWords 4 2 v → IsWords 4 2 (encrypt_words t v)
unfolding encrypt_words
encrypt_words-IsWords t v h =
    write_halves-IsWords _ (encrypt_rounds-IsState t t.longkey _ (read_halves-IsState v h))

decrypt_words-IsWords : (t : Cast5) (v : List ℕ) → IsWords 4 2 v → IsWords 4 2 (decrypt_words t v)
unfolding decrypt_words
decrypt_words-IsWords t v h =
    write_halves-IsWords _ (decrypt_rounds-IsState t t.longkey _ (read_halves-IsState v h))

length-encrypt_words : (t : Cast5) (v : List ℕ) → length v ≡ 2 → length (encrypt_words t v) ≡ 2
unfolding encrypt_words
length-encrypt_words t v h = refl

decrypt_words-encrypt_words :
    (t : Cast5) (v : List ℕ) → IsWords 4 2 v → decrypt_words t (encrypt_words t v) ≡ v
unfolding encrypt_words decrypt_words
decrypt_words-encrypt_words t v h =
    ap write_halves (decrypt_rounds-encrypt_rounds t t.longkey (read_halves v))
    ∙ two_reads v (h.size)

word_cipher : Cast5 → WordCipher 4 2
word_cipher t = record {
  forward = encrypt_words t;
  back = decrypt_words t;
  forward-IsWords = encrypt_words-IsWords t;
  back-IsWords = decrypt_words-IsWords t;
  length-forward = length-encrypt_words t;
  back-forward = decrypt_words-encrypt_words t;
}

pub cipher : Cast5 → BlockCipher
cipher t = of_words big (word_cipher t)

-- Under every key, of either length, `Decrypt` gives back the block that `Encrypt` was given.
pub cast5_decrypt-encrypt : (t : Cast5) (bs : List ℕ) → IsBlock 8 bs → decrypt t (encrypt t bs) ≡ bs
unfolding encrypt decrypt word_cipher
cast5_decrypt-encrypt t bs h = on_words_undo big (word_cipher t) bs h
