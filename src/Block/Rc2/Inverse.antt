-- ===== src/Block/Rc2/Inverse.antt =====
-- RC2 decrypts what it encrypts, under every key array.
use drew.Prelude.{
  ℕ, zero, suc, ◌+◌, ◌*◌, ◌^◌, ◌<◌, ◌≡◌, ◌≢◌, ◌∙◌, List, [], ◌∷◌, bit_and, get_or, set, length,
  length-set, get_or-set_self, get_or-set_ne, set-set_self, set-get_or_self, arith,
}
use drew.Prelude.Loops.{for_up, for_down, for_up_inv, for_down_inv, for_down-for_up}
use drew.Util.Rotate.{
  add_word, rotate_left, rotate_right, add_word-lt, sub_word-lt, sub_word-add_word, rotate_left-lt,
  rotate_right-rotate_left,
}
use drew.Util.Endian.{little, AllBelow, IsBlock, IsWords}
use drew.Block.Interface.{BlockCipher, WordCipher, of_words, on_words_undo, get_or-lt}
use drew.Block.Rc2.{
  mix_term, mix, rmix, mix_round, rmix_round, mash_term, mash, rmash, mash_round, rmash_round,
  encrypt_words, decrypt_words, encrypt, decrypt,
}

AllBelow-set : (m i v : ℕ) (xs : List ℕ) → v < m → AllBelow m xs → AllBelow m (set xs i v)
AllBelow-set m i v [] h b = tt
AllBelow-set m zero v (x ∷ xs) h b = (h, b.1)
AllBelow-set m (suc i) v (x ∷ xs) h b = (b.0, AllBelow-set m i v xs h (b.1))

set-IsWords : (i v : ℕ) (r : List ℕ) → v < 2 ^ 16 → IsWords 2 4 r → IsWords 2 4 (set r i v)
set-IsWords i v r h w = record {
  size = length-set r i v ∙ w.size;
  below = AllBelow-set (2 ^ 16) i v r h (w.below);
}

-- The other three cells are not the one that is written.
others_differ :
    (i : ℕ) → i < 4 → (i ≢ bit_and (i + 1) 3) × (i ≢ bit_and (i + 2) 3) × (i ≢ bit_and (i + 3) 3)
others_differ zero h = omega arith
others_differ (suc zero) h = omega arith
others_differ (suc (suc zero)) h = omega arith
others_differ (suc (suc (suc zero))) h = omega arith
others_differ (suc (suc (suc (suc i)))) h = absurd (omega arith)

module _ (k : List ℕ) (i : ℕ) (h : i < 4) where
  mix_term-set : (j v : ℕ) (r : List ℕ) → mix_term k (set r i v) i j ≡ mix_term k r i j
  unfolding mix_term
  mix_term-set j v r = rw (
    get_or-set_ne r i (bit_and (i + 1) 3) v 0 ((others_differ i h).0),
    get_or-set_ne r i (bit_and (i + 2) 3) v 0 ((others_differ i h).1),
    get_or-set_ne r i (bit_and (i + 3) 3) v 0 ((others_differ i h).2),
  )

  mash_term-set : (v : ℕ) (r : List ℕ) → mash_term k (set r i v) i ≡ mash_term k r i
  unfolding mash_term
  mash_term-set v r = rw (get_or-set_ne r i (bit_and (i + 3) 3) v 0 ((others_differ i h).2))

  rmash-mash : (r : List ℕ) → IsWords 2 4 r → rmash k i (mash k i r) ≡ r
  unfolding rmash mash
  rmash-mash r w =
      let v = add_word 16 (get_or r i 0) (mash_term k r i) in
      rw
        (
          get_or-set_self r i v 0 (omega arith),
          mash_term-set v r,
          sub_word-add_word 16 (get_or r i 0) (mash_term k r i)
              (get_or-lt (2 ^ 16) i r (omega arith) (w.below)),
          set-set_self r i v (get_or r i 0),
        )
        (set-get_or_self r i 0)

  rmix-mix : (j s : ℕ) (r : List ℕ) → s < 16 → IsWords 2 4 r → rmix k i j s (mix k i j s r) ≡ r
  unfolding rmix mix
  rmix-mix j s r p w =
      let u = add_word 16 (get_or r i 0) (mix_term k r i j) in
      let v = rotate_left 16 u s in
      rw
        (
          get_or-set_self r i v 0 (omega arith),
          rotate_right-rotate_left 16 s u p (add_word-lt 16 (get_or r i 0) (mix_term k r i j)),
          set-set_self r i v u,
          get_or-set_self r i u 0 (omega arith),
          mix_term-set j u r,
          sub_word-add_word 16 (get_or r i 0) (mix_term k r i j)
              (get_or-lt (2 ^ 16) i r (omega arith) (w.below)),
          set-set_self r i u (get_or r i 0),
        )
        (set-get_or_self r i 0)

module _ (k : List ℕ) where
  mash-IsWords : (i : ℕ) (r : List ℕ) → IsWords 2 4 r → IsWords 2 4 (mash k i r)
  unfolding mash
  mash-IsWords i r w = set-IsWords i _ r (add_word-lt 16 (get_or r i 0) (mash_term k r i)) w

  mix-IsWords : (i j s : ℕ) (r : List ℕ) → IsWords 2 4 r → IsWords 2 4 (mix k i j s r)
  unfolding mix
  mix-IsWords i j s r w =
      set-IsWords i _ r (rotate_left-lt 16 s _ (add_word-lt 16 (get_or r i 0) (mix_term k r i j))) w

  rmash-IsWords : (i : ℕ) (r : List ℕ) → IsWords 2 4 r → IsWords 2 4 (rmash k i r)
  unfolding rmash
  rmash-IsWords i r w = set-IsWords i _ r (sub_word-lt 16 (get_or r i 0) (mash_term k r i)) w

  -- `RMix` writes the cell twice, and the second value is a word.
  rmix-IsWords : (i j s : ℕ) (r : List ℕ) → IsWords 2 4 r → IsWords 2 4 (rmix k i j s r)
  unfolding rmix
  rmix-IsWords i j s r w =
      rw (set-set_self r i (rotate_right 16 (get_or r i 0) s) _)
        (set-IsWords i _ r (sub_word-lt 16 _ _) w)

  mix_round-IsWords : (j : ℕ) (r : List ℕ) → IsWords 2 4 r → IsWords 2 4 (mix_round k j r)
  unfolding mix_round
  mix_round-IsWords j r w =
      mix-IsWords 3 _ 5 _ (mix-IsWords 2 _ 3 _ (mix-IsWords 1 _ 2 _ (mix-IsWords 0 _ 1 r w)))

  rmix_round-IsWords : (j : ℕ) (r : List ℕ) → IsWords 2 4 r → IsWords 2 4 (rmix_round k j r)
  unfolding rmix_round
  rmix_round-IsWords j r w =
      rmix-IsWords 0 _ 1 _ (rmix-IsWords 1 _ 2 _ (rmix-IsWords 2 _ 3 _ (rmix-IsWords 3 _ 5 r w)))

  mash_round-IsWords : (r : List ℕ) → IsWords 2 4 r → IsWords 2 4 (mash_round k r)
  unfolding mash_round
  mash_round-IsWords r w =
      mash-IsWords 3 _ (mash-IsWords 2 _ (mash-IsWords 1 _ (mash-IsWords 0 r w)))

  rmash_round-IsWords : (r : List ℕ) → IsWords 2 4 r → IsWords 2 4 (rmash_round k r)
  unfolding rmash_round
  rmash_round-IsWords r w =
      rmash-IsWords 0 _ (rmash-IsWords 1 _ (rmash-IsWords 2 _ (rmash-IsWords 3 r w)))

  -- A whole round is undone by its reverse.
  rmash_round-mash_round : (r : List ℕ) → IsWords 2 4 r → rmash_round k (mash_round k r) ≡ r
  unfolding rmash_round mash_round
  rmash_round-mash_round r w =
      let w1 = mash-IsWords 0 r w in
      let w2 = mash-IsWords 1 _ w1 in
      let w3 = mash-IsWords 2 _ w2 in
      rw
        (
          rmash-mash k 3 (omega arith) (mash k 2 (mash k 1 (mash k 0 r))) w3,
          rmash-mash k 2 (omega arith) (mash k 1 (mash k 0 r)) w2,
          rmash-mash k 1 (omega arith) (mash k 0 r) w1,
        )
        (rmash-mash k 0 (omega arith) r w)

  rmix_round-mix_round : (j : ℕ) (r : List ℕ) → IsWords 2 4 r → rmix_round k j (mix_round k j r) ≡ r
  unfolding rmix_round mix_round
  rmix_round-mix_round j r w =
      let r1 = mix k 0 (j + 0) 1 r in
      let r2 = mix k 1 (j + 1) 2 r1 in
      let r3 = mix k 2 (j + 2) 3 r2 in
      let w1 : IsWords 2 4 r1 = mix-IsWords 0 (j + 0) 1 r w in
      let w2 : IsWords 2 4 r2 = mix-IsWords 1 (j + 1) 2 r1 w1 in
      let w3 : IsWords 2 4 r3 = mix-IsWords 2 (j + 2) 3 r2 w2 in
      rw
        (
          rmix-mix k 3 (omega arith) (j + 3) 5 r3 (omega arith) w3,
          rmix-mix k 2 (omega arith) (j + 2) 3 r2 (omega arith) w2,
          rmix-mix k 1 (omega arith) (j + 1) 2 r1 (omega arith) w1,
        )
        (rmix-mix k 0 (omega arith) (j + 0) 1 r (omega arith) w)

  -- The three runs of mixing rounds, each undone by the run downwards.
  mixing-IsWords :
      (n i : ℕ) (r : List ℕ) → IsWords 2 4 r → IsWords 2 4 (for_up n i (λ i. mix_round k (4 * i)) r)
  mixing-IsWords n i r w = for_up_inv (IsWords 2 4) _ (λ i r. mix_round-IsWords (4 * i) r) n i r w

  rmixing-IsWords :
      (n i : ℕ) (r : List ℕ)
      → IsWords 2 4 r
      → IsWords 2 4 (for_down n i (λ i. rmix_round k (4 * i)) r)
  rmixing-IsWords n i r w =
      for_down_inv (IsWords 2 4) _ (λ i r. rmix_round-IsWords (4 * i) r) n i r w

  rmixing-mixing :
      (n i : ℕ) (r : List ℕ)
      → IsWords 2 4 r
      → for_down n i (λ i. rmix_round k (4 * i)) (for_up n i (λ i. mix_round k (4 * i)) r) ≡ r
  rmixing-mixing n i r w =
      for_down-for_up (IsWords 2 4) (λ i. mix_round k (4 * i)) (λ i. rmix_round k (4 * i))
        (λ i r. mix_round-IsWords (4 * i) r) (λ i r. rmix_round-mix_round (4 * i) r) n i r w

  encrypt_words-IsWords : (r : List ℕ) → IsWords 2 4 r → IsWords 2 4 (encrypt_words k r)
  unfolding encrypt_words
  encrypt_words-IsWords r w =
      mixing-IsWords 5 11 _ (
        mash_round-IsWords _ (mixing-IsWords 6 5 _ (mash_round-IsWords _ (mixing-IsWords 5 0 r w))))

  decrypt_words-IsWords : (r : List ℕ) → IsWords 2 4 r → IsWords 2 4 (decrypt_words k r)
  unfolding decrypt_words
  decrypt_words-IsWords r w = rmixing-IsWords 5 0 _ (
      rmash_round-IsWords _
        (rmixing-IsWords 6 5 _ (rmash_round-IsWords _ (rmixing-IsWords 5 11 r w))))

  decrypt_words-encrypt_words :
      (r : List ℕ) → IsWords 2 4 r → decrypt_words k (encrypt_words k r) ≡ r
  unfolding decrypt_words encrypt_words
  decrypt_words-encrypt_words r w =
      let a : List ℕ = for_up 5 0 (λ i. mix_round k (4 * i)) r in
      let b : List ℕ = mash_round k a in
      let c : List ℕ = for_up 6 5 (λ i. mix_round k (4 * i)) b in
      let wa : IsWords 2 4 a = mixing-IsWords 5 0 r w in
      let wb : IsWords 2 4 b = mash_round-IsWords a wa in
      let wc : IsWords 2 4 c = mixing-IsWords 6 5 b wb in
      rw
        (
          rmixing-mixing 5 11 (mash_round k c) (mash_round-IsWords c wc),
          rmash_round-mash_round c wc,
          rmixing-mixing 6 5 b wb,
          rmash_round-mash_round a wa,
        )
        (rmixing-mixing 5 0 r w)

  -- The number of cells never changes.
  length-mix_round : (j : ℕ) (r : List ℕ) → length r ≡ 4 → length (mix_round k j r) ≡ 4
  unfolding mix_round mix
  length-mix_round j r h = simp length-set h

  length-mash_round : (r : List ℕ) → length r ≡ 4 → length (mash_round k r) ≡ 4
  unfolding mash_round mash
  length-mash_round r h = simp length-set h

  length-encrypt_words : (r : List ℕ) → length r ≡ 4 → length (encrypt_words k r) ≡ 4
  unfolding encrypt_words
  length-encrypt_words r h =
      mixing 5 11 _ (length-mash_round _ (mixing 6 5 _ (length-mash_round _ (mixing 5 0 r h))))
    where
      mixing :
          (n i : ℕ) (r : List ℕ)
          → length r ≡ 4
          → length (for_up n i (λ i. mix_round k (4 * i)) r) ≡ 4
      mixing n i r h = for_up_inv (λ r. length r ≡ 4) _ (λ i r. length-mix_round (4 * i) r) n i r h

  word_cipher : WordCipher 2 4
  word_cipher = record {
    forward = encrypt_words k;
    back = decrypt_words k;
    forward-IsWords = encrypt_words-IsWords;
    back-IsWords = decrypt_words-IsWords;
    length-forward = length-encrypt_words;
    back-forward = decrypt_words-encrypt_words;
  }

pub cipher : List ℕ → BlockCipher
cipher k = of_words little (word_cipher k)

-- Under every key array, `Decrypt` gives back the block that `Encrypt` was given.
pub rc2_decrypt-encrypt : (k bs : List ℕ) → IsBlock 8 bs → decrypt k (encrypt k bs) ≡ bs
unfolding encrypt decrypt word_cipher
rc2_decrypt-encrypt k bs h = on_words_undo little (word_cipher k) bs h
