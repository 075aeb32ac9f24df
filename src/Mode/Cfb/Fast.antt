-- ===== src/Mode/Cfb/Fast.antt =====
-- `cfb_encryptfast`, which encrypts 16 bytes at a time whatever the block size.
use drew.Prelude.{
  ℕ, zero, suc, ◌+◌, ◌/◌, ◌≤◌, ◌≡◌, refl, sym, ap, ap₂, ◌∙◌, List, [], ◌∷◌, ◌++◌, length, take,
  drop, length-drop, length-append, arith,
}
use mathlib.Core.List.{append-nil}
use drew.Util.Endian.Laws.{take-append_self, drop-append_self, take-whole}
use drew.Util.Rotate.{sub_word}
use drew.Util.Memory.{overwrite, take-overwrite_front}
use drew.Util.Keystream.{xor_bytes}
use drew.Block.Interface.{BlockCipher}
use drew.Block.Fast.{many}
use drew.Mode.Cfb.{Cfb, Feedback, refill, encrypt_segment, segments, returned, encrypt_with}
use drew.Mode.Cfb.Segments.{stream, segment-length, short, long, finish_none}
use drew.Mode.Cfb.Inverse.{encrypt_start}

-- The `for`: what is written, `buf` and `*cur`.
pub fast_rounds : BlockCipher → ℕ → ℕ → ℕ → List ℕ → List ℕ → List ℕ → List ℕ × List ℕ × List ℕ
unfolding many
fast_rounds e n chunks zero buf cur inp = ([], buf, cur)
fast_rounds e n chunks (suc k) buf cur inp =
    let buf' = overwrite buf 0 (many e.encrypt n chunks cur) in
    let out = xor_bytes (take 16 buf') (take 16 inp) in
    let r = fast_rounds e n chunks k buf' out (drop 16 inp) in (out ++ r.0, r.1, r.2)

-- `cfb_encryptfast`. The rounds are those of `len /= DREW_MODE_ALIGNMENT`.
pub encrypt_fast_with : BlockCipher → Cfb → List ℕ → List ℕ × Cfb
unfolding fast_rounds
encrypt_fast_with e c inp =
    let r = fast_rounds e c.blksize c.chunks (length inp / 16) c.buf (take 16 c.prev) inp in
    (r.0, record c { buf = r.1; prev = overwrite c.prev 0 r.2 })

none : (xs : List ℕ) → xor_bytes xs [] ≡ []
unfolding xor_bytes
none [] = refl
none (x ∷ xs) = refl

drop-xor_bytes :
    (n : ℕ) (xs ys : List ℕ) → drop n (xor_bytes xs ys) ≡ xor_bytes (drop n xs) (drop n ys)
unfolding xor_bytes
drop-xor_bytes zero xs ys = refl
drop-xor_bytes (suc n) [] [] = refl
drop-xor_bytes (suc n) [] (y ∷ ys) = refl
drop-xor_bytes (suc n) (x ∷ xs) [] = sym (none (drop n xs))
drop-xor_bytes (suc n) (x ∷ xs) (y ∷ ys) = drop-xor_bytes n xs ys

module _ (e : BlockCipher) (same : 8 ≡ e.block_size) where
  -- Two blocks of keystream, of which the second is the encryption of the second half of `cur`.
  second_half :
      (buf cur : List ℕ)
      → drop 8 (take 16 (overwrite buf 0 (many e.encrypt 8 2 cur)))
        ≡ e.encrypt (take 8 (drop 8 cur))
  unfolding many
  second_half buf cur =
      let first = e.length-encrypt (take 8 cur) in
      let second = e.length-encrypt (take 8 (drop 8 cur)) in
      let both : List ℕ = e.encrypt (take 8 cur) ++ (e.encrypt (take 8 (drop 8 cur)) ++ []) in
      let size : length both ≡ 16 = omega (
        arith,
        length-append (e.encrypt (take 8 cur)) (e.encrypt (take 8 (drop 8 cur)) ++ []),
        length-append (e.encrypt (take 8 (drop 8 cur))) [],
      ) in
      ap (drop 8) (take-overwrite_front 16 buf both (omega arith) ∙ take-whole 16 both size)
      ∙ drop-append_self 8 (e.encrypt (take 8 cur)) (e.encrypt (take 8 (drop 8 cur)) ++ [])
          (omega arith)
      ∙ append-nil (e.encrypt (take 8 (drop 8 cur)))

  fast_second :
      (buf cur inp : List ℕ)
      → length inp ≡ 16
      → drop 8 (fast_rounds e 8 2 (length inp / 16) buf cur inp).0
        ≡ xor_bytes (e.encrypt (take 8 (drop 8 cur))) (drop 8 inp)
  unfolding fast_rounds
  fast_second buf cur inp h =
      let one : length inp / 16 ≡ 1 = omega arith in
      let stream = take 16 (overwrite buf 0 (many e.encrypt 8 2 cur)) in
      ap (λ k. drop 8 (fast_rounds e 8 2 k buf cur inp).0) one
      ∙ ap (drop 8) (append-nil (xor_bytes stream (take 16 inp)))
      ∙ drop-xor_bytes 8 stream (take 16 inp)
      ∙ ap₂ xor_bytes (second_half buf cur) (ap (drop 8) (take-whole 16 inp h))

  plain_second :
      (s : Feedback) (inp : List ℕ)
      → length inp ≡ 16
      → (let out = (segments e 8 8 (encrypt_segment e 8 8) (length inp) 0 s inp).out in
          drop 8 out ≡ xor_bytes (e.encrypt (take 8 out)) (drop 8 inp))
  unfolding encrypt_segment refill sub_word
  plain_second s inp h =
      let next : List ℕ = drop 8 inp in
      let next_size : length next ≡ 8 = omega (arith, length-drop 8 inp) in
      let over_size : length (drop 8 next) ≡ 0 = omega (arith, length-drop 8 next) in
      let (out1, s1) = encrypt_segment e 8 8 8 s inp in
      let (out2, s2) = encrypt_segment e 8 8 8 s1 next in
      let size1 : length out1 ≡ 8 =
        segment-length e 8 8 same (omega arith) (omega arith) 8 s inp (omega arith) (omega arith) in
      let T : (segments e 8 8 (encrypt_segment e 8 8) (length inp) 0 s inp).out ≡ out1 ++ out2 =
        ap (λ k. (segments e 8 8 (encrypt_segment e 8 8) k 0 s inp).out) h
        ∙ ap (λ t. t.out)
            (long e 8 8 same (omega arith) (omega arith) (encrypt_segment e 8 8) 15 0 s inp
              (omega arith))
        ∙ ap (λ t. out1 ++ t.out)
            (long e 8 8 same (omega arith) (omega arith) (encrypt_segment e 8 8) 14 0 s1 next
              (omega arith))
        ∙ ap (λ t. out1 ++ (out2 ++ t.out))
            (short e 8 8 same (omega arith) (omega arith) (encrypt_segment e 8 8) 14 0 s2
                (drop 8 next) (omega arith)
              ∙ finish_none e 8 8 same (omega arith) (omega arith) (encrypt_segment e 8 8) 0 s2
                  (drop 8 next) over_size)
        ∙ ap (λ t. out1 ++ t) (append-nil out2) in
      let fed : take 8 s1.prev ≡ out1 =
        take-overwrite_front 8 (refill e 8 8 s).prev out1 (omega arith) ∙ take-whole 8 out1 size1 in
      let block = e.length-encrypt (take 8 s1.prev) in
      let key : take 8 (refill e 8 8 s1).buf ≡ e.encrypt out1 =
        stream e 8 8 same (omega arith) (omega arith) 8 s1 (omega arith)
        ∙ take-whole 8 (e.encrypt (take 8 s1.prev)) (omega arith)
        ∙ ap (e.encrypt) fed in
      ap (drop 8) T
      ∙ drop-append_self 8 out1 out2 size1
      ∙ ap₂ xor_bytes key (take-whole 8 next next_size)
      ∙ sym (
          ap (λ t. xor_bytes (e.encrypt (take 8 t)) next) T
          ∙ ap (λ t. xor_bytes (e.encrypt t) next) (take-append_self 8 out1 out2 size1))

-- What is taken twice.
take-take : (m t : ℕ) (xs : List ℕ) → m ≤ t → take m (take t xs) ≡ take m xs
take-take zero t xs h = refl
take-take (suc m) zero xs h = absurd (omega arith)
take-take (suc m) (suc t) [] h = refl
take-take (suc m) (suc t) (x ∷ xs) h = ap (λ y. x ∷ y) (take-take m t xs (omega arith))

take-drop_take :
    (k m t : ℕ) (xs : List ℕ) → k + m ≤ t → take m (drop k (take t xs)) ≡ take m (drop k xs)
take-drop_take zero m t xs h = take-take m t xs (omega arith)
take-drop_take (suc k) m zero xs h = absurd (omega arith)
take-drop_take (suc k) m (suc t) [] h = refl
take-drop_take (suc k) m (suc t) (x ∷ xs) h = take-drop_take k m t xs (omega arith)

-- For a cipher of 8-byte blocks, in segments of that size, and a message of two blocks at the start of a
-- segment: `cfb_encrypt` adds to the second block the encryption of the first block of ciphertext, but
-- `cfb_encryptfast` adds the encryption of bytes 8 to 15 of the old `prev`.
pub cfb_fast_differs :
    (e : BlockCipher) (c : Cfb) (inp : List ℕ)
    → c.blksize ≡ 8
    → e.block_size ≡ 8
    → c.feedback ≡ 8
    → c.chunks ≡ 2
    → c.boff ≡ 0
    → length inp ≡ 16
    → (let out = (encrypt_with e c inp).0 in
        (drop 8 out ≡ xor_bytes (e.encrypt (take 8 out)) (drop 8 inp))
        × (drop 8 (encrypt_fast_with e c inp).0
            ≡ xor_bytes (e.encrypt (take 8 (drop 8 c.prev))) (drop 8 inp)))
unfolding encrypt_fast_with returned
cfb_fast_differs e c inp blocks same size pairs begun len =
    let arrays : Feedback = record { buf = c.buf; prev = c.prev } in
    let E : (encrypt_with e c inp).0
        ≡ (segments e 8 8 (encrypt_segment e 8 8) (length inp) 0 arrays inp).out =
      ap (λ t. t.0) (encrypt_start e c inp begun)
      ∙ ap₂ (λ x y. (segments e x y (encrypt_segment e x y) (length inp) 0 arrays inp).out) blocks
          size in
    (
      ap (drop 8) E
          ∙ plain_second e (sym same) arrays inp len
          ∙ sym (ap (λ t. xor_bytes (e.encrypt (take 8 t)) (drop 8 inp)) E),
      ap₂ (λ x y. drop 8 (fast_rounds e x y (length inp / 16) c.buf (take 16 c.prev) inp).0) blocks
            pairs
          ∙ fast_second e (sym same) c.buf (take 16 c.prev) inp len
          ∙ ap (λ t. xor_bytes (e.encrypt t) (drop 8 inp))
              (take-drop_take 8 8 16 c.prev (omega arith)),
    )
