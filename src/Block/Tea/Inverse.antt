-- ===== src/Block/Tea/Inverse.antt =====
-- TEA decrypts what it encrypts, under every key.
use drew.Prelude.{
  ℕ, zero, suc, ◌+◌, ◌*◌, ◌%◌, ◌^◌, ◌<◌, ◌≡◌, refl, sym, ap, ◌∙◌, List, [], ◌∷◌, length, get_or,
  arith,
}
use drew.Prelude.Loops.{repeat, repeat_inv, repeat_undo}
use drew.Util.Rotate.{add_word, add_word-lt, sub_word-lt, sub_word-add_word}
use drew.Util.Endian.{big, IsBlock, IsWords}
use drew.Block.Interface.{
  BlockCipher, WordCipher, of_words, of_words-block_size, on_words_undo, get_or-lt, two_reads,
}
use drew.Block.Tea.{
  Tea, State, delta, mix, cycle, uncycle, encrypt_words, decrypt_words, encrypt, decrypt,
}

-- The three variables are 32-bit words.
pub record IsState (s : State) : Type 0 where
  pub v0_word : s.v0 < 2 ^ 32
  pub v1_word : s.v1 < 2 ^ 32
  pub sum_word : s.sum < 2 ^ 32

cycle-IsState : (t : Tea) (s : State) → IsState (cycle t s)
unfolding cycle
cycle-IsState t s = record {
  v0_word = add_word-lt 32 _ _;
  v1_word = add_word-lt 32 _ _;
  sum_word = add_word-lt 32 _ _;
}

uncycle-IsState : (t : Tea) (s : State) → IsState (uncycle t s)
unfolding uncycle
uncycle-IsState t s = record {
  v0_word = sub_word-lt 32 _ _;
  v1_word = sub_word-lt 32 _ _;
  sum_word = sub_word-lt 32 _ _;
}

uncycle-cycle : (t : Tea) (s : State) → IsState s → uncycle t (cycle t s) ≡ s
unfolding uncycle cycle
uncycle-cycle t s h =
    let sum = add_word 32 s.sum delta in
    let m0 = mix s.v1 sum t.k0 t.k1 in
    let m1 = mix (add_word 32 s.v0 m0) sum t.k2 t.k3 in
    ground (
      arith,
      sub_word-add_word 32 s.sum delta,
      sub_word-add_word 32 s.v0 m0,
      sub_word-add_word 32 s.v1 m1,
    )

-- The loop bodies: two cycles.
abbrev round : Tea → State → State
round t s = cycle t (cycle t s)

abbrev unround : Tea → State → State
unround t s = uncycle t (uncycle t s)

unround-round : (t : Tea) (s : State) → IsState s → unround t (round t s) ≡ s
unround-round t s h =
    ap (uncycle t) (uncycle-cycle t (cycle t s) (cycle-IsState t s)) ∙ uncycle-cycle t s h

-- `sum` counts the cycles.
sum-round : (t : Tea) (s : State) → (round t s).sum ≡ (s.sum + 2 * delta) % 2 ^ 32
unfolding cycle add_word
sum-round t s = omega arith

sum-rounds :
    (t : Tea) (n : ℕ) (s : State)
    → s.sum < 2 ^ 32
    → (repeat n (round t) s).sum ≡ (s.sum + n * (2 * delta)) % 2 ^ 32
unfolding repeat
sum-rounds t zero s h = omega arith
sum-rounds t (suc n) s h =
    omega (arith, sum-rounds t n (round t s) (omega (arith, sum-round t s)), sum-round t s)

abbrev start : List ℕ → State
start v = record { v0 = get_or v 0 0; v1 = get_or v 1 0; sum = 0 }

start-IsState : (v : List ℕ) → IsWords 4 2 v → IsState (start v)
start-IsState v h = record {
  v0_word = get_or-lt (2 ^ 32) 0 v (omega arith) (h.below);
  v1_word = get_or-lt (2 ^ 32) 1 v (omega arith) (h.below);
  sum_word = omega arith;
}

-- The state from which `Decrypt` starts is the one in which `Encrypt` ends.
restart :
    (t : Tea) (v : List ℕ)
    → ◌≡◌ {A = State}
        (record {
          v0 = get_or (encrypt_words t v) 0 0;
          v1 = get_or (encrypt_words t v) 1 0;
          sum = delta * 2 ^ 5 % 2 ^ 32;
        })
        (repeat 16 (round t) (start v))
unfolding encrypt_words
restart t v = λ i. record (repeat 16 (round t) (start v)) { sum = total i }
  where
    total : delta * 2 ^ 5 % 2 ^ 32 ≡ (repeat 16 (round t) (start v)).sum
    total = sym (sum-rounds t 16 (start v) (omega arith))

abbrev words : State → List ℕ
words s = s.v0 ∷ s.v1 ∷ []

decrypt_words-encrypt_words :
    (t : Tea) (v : List ℕ) → IsWords 4 2 v → decrypt_words t (encrypt_words t v) ≡ v
unfolding decrypt_words
decrypt_words-encrypt_words t v h =
    ap (λ s. words (repeat 16 (unround t) s)) (restart t v)
    ∙ ap words (
        repeat_undo IsState (round t) (unround t) (λ s k. cycle-IsState t (cycle t s))
          (unround-round t) 16 (start v) (start-IsState v h))
    ∙ two_reads v (h.size)

encrypt_words-IsWords : (t : Tea) (v : List ℕ) → IsWords 4 2 v → IsWords 4 2 (encrypt_words t v)
unfolding encrypt_words
encrypt_words-IsWords t v h =
    let end =
      repeat_inv IsState (round t) (λ s k. cycle-IsState t (cycle t s)) 16 (start v)
        (start-IsState v h) in
    record { size = refl; below = (end.v0_word, (end.v1_word, tt)) }

decrypt_words-IsWords : (t : Tea) (v : List ℕ) → IsWords 4 2 v → IsWords 4 2 (decrypt_words t v)
unfolding decrypt_words
decrypt_words-IsWords t v h =
    let end =
      repeat_inv IsState (unround t) (λ s k. uncycle-IsState t (uncycle t s)) 16
        (record (start v) { sum = delta * 2 ^ 5 % 2 ^ 32 })
        (record {
          v0_word = (start-IsState v h).v0_word;
          v1_word = (start-IsState v h).v1_word;
          sum_word = omega arith;
        }) in
    record { size = refl; below = (end.v0_word, (end.v1_word, tt)) }

-- TEA as a cipher on words, and as one on blocks of eight bytes.
length-encrypt_words : (t : Tea) (v : List ℕ) → length v ≡ 2 → length (encrypt_words t v) ≡ 2
unfolding encrypt_words
length-encrypt_words t v h = refl

word_cipher : Tea → WordCipher 4 2
word_cipher t = record {
  forward = encrypt_words t;
  back = decrypt_words t;
  forward-IsWords = encrypt_words-IsWords t;
  back-IsWords = decrypt_words-IsWords t;
  length-forward = length-encrypt_words t;
  back-forward = decrypt_words-encrypt_words t;
}

pub cipher : Tea → BlockCipher
cipher t = of_words big (word_cipher t)

pub cipher-block_size : (t : Tea) → (cipher t).block_size ≡ 8
unfolding cipher
cipher-block_size t = of_words-block_size big (word_cipher t)

-- Under every key, `Decrypt` gives back the block that `Encrypt` was given.
pub tea_decrypt-encrypt : (t : Tea) (bs : List ℕ) → IsBlock 8 bs → decrypt t (encrypt t bs) ≡ bs
unfolding encrypt decrypt word_cipher
tea_decrypt-encrypt t bs h = on_words_undo big (word_cipher t) bs h
