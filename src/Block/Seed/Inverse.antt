-- ===== src/Block/Seed/Inverse.antt =====
-- `SEED::Decrypt` undoes `SEED::Encrypt` under every array of subkeys.
use native.Mathlib.Nat.{mod-lt}
use drew.Prelude.{ℕ, ◌*◌, ◌%◌, ◌^◌, ◌<◌, ◌≡◌, refl, ap, ◌∙◌, List, [], ◌∷◌, get_or, arith}
use drew.Prelude.Bits.{xor-lt, or-lt, xor_cancel}
use drew.Prelude.Loops.{for_up, for_down, for_up_inv, for_down_inv, for_down-for_up}
use drew.Util.Endian.{big, IsBlock, IsWords}
use drew.Block.Interface.{
  BlockCipher, WordCipher, of_words, on_words_undo, of_words-block_size, get_or-lt, two_reads,
}
use drew.Block.Feistel.{Halves, swap, step}
use drew.Block.Seed.{
  Seed, joined, g, f, keyed, mask, encrypt_rounds, decrypt_rounds, encrypt_words, decrypt_words,
  encrypt, decrypt,
}

-- Both halves are words of 64 bits.
record IsState (s : Halves) : Type 0 where
  l_word : s.l < 2 ^ 64
  r_word : s.r < 2 ^ 64

joined-lt : (x y : ℕ) → y < 2 ^ 32 → joined x y < 2 ^ 64
joined-lt x y h = or-lt 64 (x * 2 ^ 32 % 2 ^ 64) y (mod-lt (x * 2 ^ 32) (omega arith)) (omega arith)

g-lt : (x : ℕ) → g x < 2 ^ 32
unfolding g
g-lt x = mod-lt _ (omega arith)

f-lt : (k r : ℕ) → f k r < 2 ^ 64
unfolding f
f-lt k r = joined-lt _ _ (g-lt _)

module _ (t : Seed) where
  mask-IsState : (i : ℕ) (s : Halves) → IsState s → IsState (mask t i s)
  unfolding mask
  mask-IsState i s h = record {
    l_word = xor-lt 64 s.l (keyed t i s.r) (h.l_word) (f-lt _ s.r);
    r_word = h.r_word;
  }

  round-IsState : (i : ℕ) (s : Halves) → IsState s → IsState (step (keyed t i) s)
  unfolding step
  round-IsState i s h = record {
    l_word = h.r_word;
    r_word = xor-lt 64 s.l (keyed t i s.r) (h.l_word) (f-lt _ s.r);
  }

  back_round-IsState : (i : ℕ) (s : Halves) → IsState s → IsState (mask t i (swap s))
  unfolding swap
  back_round-IsState i s h = mask-IsState i _ (record { l_word = h.r_word; r_word = h.l_word })

  mask_undo : (i : ℕ) (s : Halves) → mask t i (mask t i s) ≡ s
  unfolding mask
  mask_undo i s = λ j. record s { l = xor_cancel s.l (keyed t i s.r) j }

  round_undo : (i : ℕ) (s : Halves) → mask t i (swap (step (keyed t i) s)) ≡ s
  unfolding mask swap step
  round_undo i s = λ j. record s { l = xor_cancel s.l (keyed t i s.r) j }

  decrypt_rounds-encrypt_rounds :
      (s : Halves) → IsState s → decrypt_rounds t (encrypt_rounds t s) ≡ s
  unfolding decrypt_rounds encrypt_rounds
  decrypt_rounds-encrypt_rounds s h =
      ap (for_down 15 0 (λ i u. mask t i (swap u)))
        (mask_undo 15 (for_up 15 0 (λ i. step (keyed t i)) s))
      ∙ for_down-for_up IsState (λ i. step (keyed t i)) (λ i u. mask t i (swap u)) round-IsState
          (λ i u k. round_undo i u) 15 0 s h

  encrypt_rounds-IsState : (s : Halves) → IsState s → IsState (encrypt_rounds t s)
  unfolding encrypt_rounds
  encrypt_rounds-IsState s h =
      mask-IsState 15 _ (for_up_inv IsState (λ i. step (keyed t i)) round-IsState 15 0 s h)

  decrypt_rounds-IsState : (s : Halves) → IsState s → IsState (decrypt_rounds t s)
  unfolding decrypt_rounds
  decrypt_rounds-IsState s h =
      for_down_inv IsState (λ i u. mask t i (swap u)) back_round-IsState 15 0 _
        (mask-IsState 15 s h)

abbrev read_halves : List ℕ → Halves
read_halves v = record { l = get_or v 0 0; r = get_or v 1 0 }

read_halves-IsState : (v : List ℕ) → IsWords 8 2 v → IsState (read_halves v)
read_halves-IsState v h = record {
  l_word = get_or-lt (2 ^ 64) 0 v (omega arith) (h.below);
  r_word = get_or-lt (2 ^ 64) 1 v (omega arith) (h.below);
}

write_halves-IsWords : (s : Halves) → IsState s → IsWords 8 2 (s.l ∷ s.r ∷ [])
write_halves-IsWords s h = record { size = refl; below = (h.l_word, (h.r_word, tt)) }

word_cipher : Seed → WordCipher 8 2
unfolding encrypt_words decrypt_words
word_cipher t = record {
  forward = encrypt_words t;
  back = decrypt_words t;
  forward-IsWords = λ v h.
      write_halves-IsWords _ (encrypt_rounds-IsState t (read_halves v) (read_halves-IsState v h));
  back-IsWords = λ v h.
      write_halves-IsWords _ (decrypt_rounds-IsState t (read_halves v) (read_halves-IsState v h));
  length-forward = λ v h. refl;
  back-forward = λ v h.
      ap (λ s. s.l ∷ s.r ∷ [])
        (decrypt_rounds-encrypt_rounds t (read_halves v) (read_halves-IsState v h))
      ∙ two_reads v (h.size);
}

pub cipher : Seed → BlockCipher
cipher t = of_words big (word_cipher t)

pub cipher-block_size : (t : Seed) → (cipher t).block_size ≡ 16
unfolding cipher
cipher-block_size t = of_words-block_size big (word_cipher t)

-- Under every array of subkeys, `Decrypt` gives back the block of 16 bytes that `Encrypt` was given.
pub seed_decrypt-encrypt : (t : Seed) (bs : List ℕ) → IsBlock 16 bs → decrypt t (encrypt t bs) ≡ bs
unfolding encrypt decrypt word_cipher
seed_decrypt-encrypt t bs h = on_words_undo big (word_cipher t) bs h
