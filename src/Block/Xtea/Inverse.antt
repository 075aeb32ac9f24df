-- ===== src/Block/Xtea/Inverse.antt =====
-- XTEA decrypts what it encrypts, under every key and for every number of rounds.
use drew.Prelude.{
  ℕ, zero, suc, ◌+◌, ◌*◌, ◌%◌, ◌^◌, ◌<◌, ◌≡◌, refl, ap, ◌∙◌, List, [], ◌∷◌, length, get_or, arith,
}
use drew.Prelude.Loops.{repeat, repeat_inv, repeat_undo}
use drew.Util.Rotate.{add_word, add_word-lt, sub_word-lt, sub_word-add_word}
use drew.Util.Endian.{big, IsBlock, IsWords}
use drew.Block.Interface.{BlockCipher, WordCipher, of_words, on_words_undo, get_or-lt, two_reads}
use drew.Block.Xtea.{
  Xtea, State, delta, mask_y, mask_z, round, unround, last_sum, encrypt_words, decrypt_words,
  encrypt, decrypt,
}

-- The three variables are 32-bit words.
record IsState (s : State) : Type 0 where
  y_word : s.y < 2 ^ 32
  z_word : s.z < 2 ^ 32
  sum_word : s.sum < 2 ^ 32

round-IsState : (t : Xtea) (s : State) → IsState s → IsState (round t s)
unfolding round
round-IsState t s h = record {
  y_word = add_word-lt 32 _ _;
  z_word = add_word-lt 32 _ _;
  sum_word = add_word-lt 32 _ _;
}

unround-IsState : (t : Xtea) (s : State) → IsState s → IsState (unround t s)
unfolding unround
unround-IsState t s h = record {
  y_word = sub_word-lt 32 _ _;
  z_word = sub_word-lt 32 _ _;
  sum_word = sub_word-lt 32 _ _;
}

unround-round : (t : Xtea) (s : State) → IsState s → unround t (round t s) ≡ s
unfolding unround round
unround-round t s h =
    let y = add_word 32 s.y (mask_y t s.z s.sum) in
    ground (
      arith,
      sub_word-add_word 32 s.sum delta,
      sub_word-add_word 32 s.y (mask_y t s.z s.sum),
      sub_word-add_word 32 s.z (mask_z t y (add_word 32 s.sum delta)),
    )

-- `sum` counts the rounds, modulo 2 ^ 32.
sum-round : (t : Xtea) (s : State) → (round t s).sum ≡ (s.sum + delta) % 2 ^ 32
unfolding round add_word
sum-round t s = refl

sum-rounds :
    (t : Xtea) (n : ℕ) (s : State)
    → s.sum < 2 ^ 32
    → (repeat n (round t) s).sum ≡ (s.sum + n * delta) % 2 ^ 32
unfolding repeat
sum-rounds t zero s h = omega arith
sum-rounds t (suc n) s h =
    omega (arith, sum-rounds t n (round t s) (omega (arith, sum-round t s)), sum-round t s)

abbrev start : List ℕ → State
start v = record { y = get_or v 0 0; z = get_or v 1 0; sum = 0 }

start-IsState : (v : List ℕ) → IsWords 4 2 v → IsState (start v)
start-IsState v h = record {
  y_word = get_or-lt (2 ^ 32) 0 v (omega arith) (h.below);
  z_word = get_or-lt (2 ^ 32) 1 v (omega arith) (h.below);
  sum_word = omega arith;
}

-- The state from which `Decrypt` starts is the one in which `Encrypt` ends.
restart :
    (t : Xtea) (v : List ℕ)
    → ◌≡◌ {A = State}
        (record {
          y = get_or (encrypt_words t v) 0 0;
          z = get_or (encrypt_words t v) 1 0;
          sum = last_sum t.rounds;
        })
        (repeat t.rounds (round t) (start v))
unfolding encrypt_words last_sum
restart t v = λ i. record (repeat t.rounds (round t) (start v)) { sum = total i }
  where
    total : last_sum t.rounds ≡ (repeat t.rounds (round t) (start v)).sum
    total = omega (arith, sum-rounds t t.rounds (start v) (omega arith))

abbrev words : State → List ℕ
words s = s.y ∷ s.z ∷ []

decrypt_words-encrypt_words :
    (t : Xtea) (v : List ℕ) → IsWords 4 2 v → decrypt_words t (encrypt_words t v) ≡ v
unfolding decrypt_words
decrypt_words-encrypt_words t v h =
    ap (λ s. words (repeat t.rounds (unround t) s)) (restart t v)
    ∙ ap words (
        repeat_undo IsState (round t) (unround t) (round-IsState t) (unround-round t) t.rounds
          (start v) (start-IsState v h))
    ∙ two_reads v (h.size)

words-IsWords : (s : State) → IsState s → IsWords 4 2 (words s)
words-IsWords s h = record { size = refl; below = (h.y_word, (h.z_word, tt)) }

encrypt_words-IsWords : (t : Xtea) (v : List ℕ) → IsWords 4 2 v → IsWords 4 2 (encrypt_words t v)
unfolding encrypt_words
encrypt_words-IsWords t v h =
    words-IsWords _
      (repeat_inv IsState (round t) (round-IsState t) t.rounds (start v) (start-IsState v h))

decrypt_words-IsWords : (t : Xtea) (v : List ℕ) → IsWords 4 2 v → IsWords 4 2 (decrypt_words t v)
unfolding decrypt_words last_sum
decrypt_words-IsWords t v h = words-IsWords _ (
    repeat_inv IsState (unround t) (unround-IsState t) t.rounds _ (record {
      y_word = (start-IsState v h).y_word;
      z_word = (start-IsState v h).z_word;
      sum_word = omega arith;
    }))

length-encrypt_words : (t : Xtea) (v : List ℕ) → length v ≡ 2 → length (encrypt_words t v) ≡ 2
unfolding encrypt_words
length-encrypt_words t v h = refl

word_cipher : Xtea → WordCipher 4 2
word_cipher t = record {
  forward = encrypt_words t;
  back = decrypt_words t;
  forward-IsWords = encrypt_words-IsWords t;
  back-IsWords = decrypt_words-IsWords t;
  length-forward = length-encrypt_words t;
  back-forward = decrypt_words-encrypt_words t;
}

pub cipher : Xtea → BlockCipher
cipher t = of_words big (word_cipher t)

-- Under every key and for every number of rounds, `Decrypt` gives back the block that `Encrypt`
-- was given.
pub xtea_decrypt-encrypt : (t : Xtea) (bs : List ℕ) → IsBlock 8 bs → decrypt t (encrypt t bs) ≡ bs
unfolding encrypt decrypt word_cipher
xtea_decrypt-encrypt t bs h = on_words_undo big (word_cipher t) bs h
