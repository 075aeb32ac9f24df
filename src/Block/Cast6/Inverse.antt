-- ===== src/Block/Cast6/Inverse.antt =====
-- CAST-256: decryption undoes encryption under every key.
use drew.Prelude.{ℕ, ◌^◌, ◌<◌, ◌≡◌, refl, ap, ◌∙◌, List, [], ◌∷◌, bit_xor, length, arith}
use drew.Prelude.Bits.{xor-lt, xor_cancel}
use drew.Prelude.Loops.{for_down, for_up_inv, for_down_inv, for_down-for_up}
use drew.Util.Endian.{big, IsBlock, IsWords}
use drew.Block.Interface.{
  BlockCipher, WordCipher, of_words, of_words-block_size, on_words_undo, get_or-lt,
}
use drew.Block.Cast5.{f1, f2, f3}
use drew.Block.Cast5.Inverse.{f1-lt, f2-lt, f3-lt}
use drew.Block.Cast6.{
  Cast6, Quad, keyed, quad_round, quad_round_bar, encrypt_rounds, decrypt_rounds, read_quad,
  write_quad, encrypt_words, decrypt_words, encrypt, decrypt,
}

-- All four are words.
record IsQuad (s : Quad) : Type 0 where
  a_word : s.a < 2 ^ 32
  b_word : s.b < 2 ^ 32
  c_word : s.c < 2 ^ 32
  d_word : s.d < 2 ^ 32

module _ (t : Cast6) where
  quad_round-IsQuad : (i : ℕ) (s : Quad) → IsQuad s → IsQuad (quad_round t i s)
  unfolding quad_round
  quad_round-IsQuad i s h = record {
    a_word = xor-lt 32 _ _ (h.a_word) (f3-lt _ _ _);
    b_word = xor-lt 32 _ _ (h.b_word) (f2-lt _ _ _);
    c_word = xor-lt 32 _ _ (h.c_word) (f1-lt _ _ _);
    d_word = xor-lt 32 _ _ (h.d_word) (f1-lt _ _ _);
  }

  quad_round_bar-IsQuad : (i : ℕ) (s : Quad) → IsQuad s → IsQuad (quad_round_bar t i s)
  unfolding quad_round_bar
  quad_round_bar-IsQuad i s h = record {
    a_word = xor-lt 32 _ _ (h.a_word) (f3-lt _ _ _);
    b_word = xor-lt 32 _ _ (h.b_word) (f2-lt _ _ _);
    c_word = xor-lt 32 _ _ (h.c_word) (f1-lt _ _ _);
    d_word = xor-lt 32 _ _ (h.d_word) (f1-lt _ _ _);
  }

  -- Each of the two rounds undoes the other.
  quad_round_bar-quad_round : (i : ℕ) (s : Quad) → quad_round_bar t i (quad_round t i s) ≡ s
  unfolding quad_round quad_round_bar
  quad_round_bar-quad_round i s =
      let r = quad_round t i s in
      let d : bit_xor r.d (keyed t f1 3 i r.a) ≡ s.d = xor_cancel s.d (keyed t f1 3 i r.a) in
      let c : bit_xor r.c (keyed t f1 0 i (bit_xor r.d (keyed t f1 3 i r.a))) ≡ s.c =
        ap (λ x. bit_xor r.c (keyed t f1 0 i x)) d ∙ xor_cancel s.c (keyed t f1 0 i s.d) in
      λ j. record {
        a = xor_cancel s.a (keyed t f3 2 i r.b) j;
        b = xor_cancel s.b (keyed t f2 1 i r.c) j;
        c = c j;
        d = d j;
      }

  quad_round-quad_round_bar : (i : ℕ) (s : Quad) → quad_round t i (quad_round_bar t i s) ≡ s
  unfolding quad_round quad_round_bar
  quad_round-quad_round_bar i s =
      let r = quad_round_bar t i s in
      let c : bit_xor r.c (keyed t f1 0 i r.d) ≡ s.c = xor_cancel s.c (keyed t f1 0 i r.d) in
      let b : bit_xor r.b (keyed t f2 1 i (bit_xor r.c (keyed t f1 0 i r.d))) ≡ s.b =
        ap (λ x. bit_xor r.b (keyed t f2 1 i x)) c ∙ xor_cancel s.b (keyed t f2 1 i s.c) in
      let a : bit_xor r.a
            (keyed t f3 2 i (bit_xor r.b (keyed t f2 1 i (bit_xor r.c (keyed t f1 0 i r.d)))))
          ≡ s.a =
        ap (λ x. bit_xor r.a (keyed t f3 2 i x)) b ∙ xor_cancel s.a (keyed t f3 2 i s.b) in
      let d : bit_xor r.d (
            keyed t f1 3 i (
              bit_xor r.a
                (keyed t f3 2 i (bit_xor r.b (keyed t f2 1 i (bit_xor r.c (keyed t f1 0 i r.d)))))))
          ≡ s.d =
        ap (λ x. bit_xor r.d (keyed t f1 3 i x)) a ∙ xor_cancel s.d (keyed t f1 3 i s.a) in
      λ j. record { a = a j; b = b j; c = c j; d = d j }

  decrypt_rounds-encrypt_rounds : (s : Quad) → IsQuad s → decrypt_rounds t (encrypt_rounds t s) ≡ s
  unfolding encrypt_rounds decrypt_rounds
  decrypt_rounds-encrypt_rounds s h =
      let first = for_up_inv IsQuad (quad_round t) quad_round-IsQuad 6 0 s h in
      ap (for_down 6 0 (quad_round_bar t)) (
        for_down-for_up IsQuad (quad_round_bar t) (quad_round t) quad_round_bar-IsQuad
          (λ i r k. quad_round-quad_round_bar i r) 6 6 _ first)
      ∙ for_down-for_up IsQuad (quad_round t) (quad_round_bar t) quad_round-IsQuad
          (λ i r k. quad_round_bar-quad_round i r) 6 0 s h

  encrypt_rounds-IsQuad : (s : Quad) → IsQuad s → IsQuad (encrypt_rounds t s)
  unfolding encrypt_rounds
  encrypt_rounds-IsQuad s h =
      for_up_inv IsQuad (quad_round_bar t) quad_round_bar-IsQuad 6 6 _
        (for_up_inv IsQuad (quad_round t) quad_round-IsQuad 6 0 s h)

  decrypt_rounds-IsQuad : (s : Quad) → IsQuad s → IsQuad (decrypt_rounds t s)
  unfolding decrypt_rounds
  decrypt_rounds-IsQuad s h =
      for_down_inv IsQuad (quad_round_bar t) quad_round_bar-IsQuad 6 0 _
        (for_down_inv IsQuad (quad_round t) quad_round-IsQuad 6 6 s h)

read_quad-IsQuad : (v : List ℕ) → IsWords 4 4 v → IsQuad (read_quad v)
read_quad-IsQuad v h = record {
  a_word = get_or-lt (2 ^ 32) 0 v (omega arith) (h.below);
  b_word = get_or-lt (2 ^ 32) 1 v (omega arith) (h.below);
  c_word = get_or-lt (2 ^ 32) 2 v (omega arith) (h.below);
  d_word = get_or-lt (2 ^ 32) 3 v (omega arith) (h.below);
}

write_quad-IsWords : (s : Quad) → IsQuad s → IsWords 4 4 (write_quad s)
write_quad-IsWords s h = record {
  size = refl;
  below = (h.a_word, (h.b_word, (h.c_word, (h.d_word, tt))));
}

four_reads : (ws : List ℕ) → length ws ≡ 4 → write_quad (read_quad ws) ≡ ws
four_reads [] h = absurd (omega arith)
four_reads (a ∷ []) h = absurd (omega arith)
four_reads (a ∷ b ∷ []) h = absurd (omega arith)
four_reads (a ∷ b ∷ c ∷ []) h = absurd (omega arith)
four_reads (a ∷ b ∷ c ∷ d ∷ []) h = refl
four_reads (a ∷ b ∷ c ∷ d ∷ x ∷ ws) h = absurd (omega arith)

word_cipher : Cast6 → WordCipher 4 4
unfolding encrypt_words decrypt_words
word_cipher t = record {
  forward = encrypt_words t;
  back = decrypt_words t;
  forward-IsWords = λ v h. write_quad-IsWords _ (encrypt_rounds-IsQuad t _ (read_quad-IsQuad v h));
  back-IsWords = λ v h. write_quad-IsWords _ (decrypt_rounds-IsQuad t _ (read_quad-IsQuad v h));
  length-forward = λ v h. refl;
  back-forward = λ v h.
      ap write_quad (decrypt_rounds-encrypt_rounds t (read_quad v) (read_quad-IsQuad v h))
      ∙ four_reads v (h.size);
}

pub cipher : Cast6 → BlockCipher
cipher t = of_words big (word_cipher t)

pub cipher-block_size : (t : Cast6) → (cipher t).block_size ≡ 16
unfolding cipher
cipher-block_size t = of_words-block_size big (word_cipher t)

-- Under every key, `Decrypt` gives back the block that `Encrypt` was given.
pub cast6_decrypt-encrypt :
    (t : Cast6) (bs : List ℕ) → IsBlock 16 bs → decrypt t (encrypt t bs) ≡ bs
unfolding encrypt decrypt word_cipher
cast6_decrypt-encrypt t bs h = on_words_undo big (word_cipher t) bs h
