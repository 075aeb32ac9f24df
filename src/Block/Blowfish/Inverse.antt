-- ===== src/Block/Blowfish/Inverse.antt =====
-- Blowfish: decryption undoes encryption under every key.
use drew.Prelude.{ℕ, ◌^◌, ◌≡◌, refl, ap, ◌∙◌, List, [], ◌∷◌, length, get_or, arith}
use drew.Util.Endian.{big, AllBelow, IsBlock, IsWords}
use drew.Block.Interface.{BlockCipher, WordCipher, of_words, on_words_undo, get_or-lt, two_reads}
use drew.Block.Feistel.{Halves, swap}
use drew.Block.Blowfish.{Blowfish, set_key, crypt_words, encrypt, decrypt}
use drew.Block.Blowfish.Rounds.{main_algorithm_undo}
use drew.Block.Blowfish.Schedule.{IsKeyed, main_algorithm-IsState, set_key-IsKeyed}

crypt_words-IsWords :
    (s p : List ℕ)
    → AllBelow (2 ^ 32) p
    → (v : List ℕ) → IsWords 4 2 v
    → IsWords 4 2 (crypt_words s p v)
unfolding crypt_words
crypt_words-IsWords s p k v h =
    let d =
      main_algorithm-IsState s p k (record { l = get_or v 0 0; r = get_or v 1 0 })
        (record {
          l_word = get_or-lt (2 ^ 32) 0 v (omega arith) (h.below);
          r_word = get_or-lt (2 ^ 32) 1 v (omega arith) (h.below);
        }) in
    record { size = refl; below = (d.r_word, (d.l_word, tt)) }

length-crypt_words : (s p v : List ℕ) → length v ≡ 2 → length (crypt_words s p v) ≡ 2
unfolding crypt_words
length-crypt_words s p v h = refl

crypt_words_undo :
    (t : Blowfish) (v : List ℕ)
    → IsKeyed t
    → IsWords 4 2 v
    → crypt_words t.s t.pd (crypt_words t.s t.p v) ≡ v
unfolding crypt_words swap
crypt_words_undo t v k h =
    ap (λ (d : Halves). d.l ∷ d.r ∷ [])
      (main_algorithm_undo t.s t.p t.pd (k.mirror) (record { l = get_or v 0 0; r = get_or v 1 0 }))
    ∙ two_reads v (h.size)

word_cipher : (t : Blowfish) → IsKeyed t → WordCipher 4 2
word_cipher t k = record {
  forward = crypt_words t.s t.p;
  back = crypt_words t.s t.pd;
  forward-IsWords = crypt_words-IsWords t.s t.p (k.keys);
  back-IsWords = crypt_words-IsWords t.s t.pd (k.reverse_keys);
  length-forward = length-crypt_words t.s t.p;
  back-forward = λ v h. crypt_words_undo t v k h;
}

pub cipher : (key : List ℕ) → AllBelow 256 key → BlockCipher
cipher key h = of_words big (word_cipher (set_key key) (set_key-IsKeyed key h))

-- After the key schedule for any key of bytes, `Decrypt` gives back the block that `Encrypt` was
-- given.
pub blowfish_decrypt-encrypt :
    (key bs : List ℕ)
    → AllBelow 256 key
    → IsBlock 8 bs
    → decrypt (set_key key) (encrypt (set_key key) bs) ≡ bs
unfolding encrypt decrypt word_cipher
blowfish_decrypt-encrypt key bs h b =
    on_words_undo big (word_cipher (set_key key) (set_key-IsKeyed key h)) bs b
