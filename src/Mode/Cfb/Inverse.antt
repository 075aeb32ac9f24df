-- ===== src/Mode/Cfb/Inverse.antt =====
-- Calls on a keyed context: the round trip from the start of a segment, and what decryption in pieces
-- does to the offset.
use drew.Prelude.{
  ℕ, ◌+◌, ◌%◌, ◌^◌, ◌≤◌, ◌<◌, ◌≡◌, ◌≢◌, refl, sym, ap, ap₂, ◌∙◌, Option, none, some, true, false,
  List, [], length, drop, ◌==◌, if◌then◌else◌, arith,
}
use drew.Util.Rotate.{add_word, sub_word}
use drew.Util.Memory.{drop-whole}
use drew.Block.Interface.{BlockCipher}
use drew.Mode.Cfb.{
  Cfb, Feedback, encrypt_segment, decrypt_segment, finish, segments, returned, head_size,
  encrypt_with, decrypt_with, through,
}
use drew.Mode.Cfb.Segments.{segments-IsRestored}

-- The context between calls: keyed with `e`, for segments of at most a block, and a block of at most the
-- arrays.
pub record IsKeyed (e : BlockCipher) (c : Cfb) : Type 0 where
  pub keyed : c.algo ≡ some e
  pub size : c.blksize ≡ e.block_size
  pub some_bytes : 0 < c.feedback
  pub segment : c.feedback ≤ c.blksize
  pub array : c.blksize ≤ 32

through_keyed :
    (call : BlockCipher → Cfb → List ℕ → List ℕ × Cfb) (e : BlockCipher) (c : Cfb) (inp : List ℕ)
    → c.algo ≡ some e
    → through call c inp ≡ some (call e c inp)
unfolding through
through_keyed call e c inp k =
    ap (λ (a : Option BlockCipher). elim a [ none ↦ none | some x ↦ some (call x c inp) ]) k

-- A call at the start of a segment.
pub encrypt_start :
    (e : BlockCipher) (c : Cfb) (inp : List ℕ)
    → c.boff ≡ 0
    → encrypt_with e c inp
      ≡ returned c [] (
          segments e c.blksize c.feedback
            (encrypt_segment e c.blksize c.feedback)
            (length inp)
            0
            (record { buf = c.buf; prev = c.prev })
            inp)
unfolding encrypt_with
encrypt_start e c inp h = let go : (c.boff == 0) ≡ true = ground arith in rw go refl

decrypt_start :
    (e : BlockCipher) (c : Cfb) (inp : List ℕ)
    → c.boff ≡ 0
    → decrypt_with e c inp
      ≡ returned c [] (
          segments e c.blksize c.feedback
            (decrypt_segment e c.blksize c.feedback)
            (length inp)
            0
            (record { buf = c.buf; prev = c.prev })
            inp)
unfolding decrypt_with
decrypt_start e c inp h = let go : (c.boff == 0) ≡ true = ground arith in rw go refl

-- For contexts keyed with the same cipher, with segments of the same size, of which none is begun, and
-- with the same `prev`, `cfb_decrypt` of what `cfb_encrypt` has written of a message of any length gives
-- the message back; both keep the length, and leave the same `prev` and the same offset.
pub cfb_decrypt-encrypt :
    (e : BlockCipher) (c d : Cfb) (inp : List ℕ)
    → IsKeyed e c
    → IsKeyed e d
    → d.feedback ≡ c.feedback
    → d.prev ≡ c.prev
    → c.boff ≡ 0
    → d.boff ≡ 0
    → (let r = encrypt_with e c inp in
        let s = decrypt_with e d r.0 in
        (through encrypt_with c inp ≡ some r)
        × (through decrypt_with d r.0 ≡ some s)
        × (s.0 ≡ inp)
        × (length r.0 ≡ length inp)
        × (s.1.prev ≡ r.1.prev)
        × (s.1.boff ≡ r.1.boff))
unfolding returned
cfb_decrypt-encrypt e c d inp kc kd sizes same c_start d_start =
    let n = c.blksize in
    let f = c.feedback in
    let a : Feedback = record { buf = c.buf; prev = c.prev } in
    let b : Feedback = record { buf = d.buf; prev = d.prev } in
    let r = segments e n f (encrypt_segment e n f) (length inp) 0 a inp in
    let blocks : d.blksize ≡ n = kd.size ∙ sym (kc.size) in
    let E = encrypt_start e c inp c_start in
    let D =
      ap (λ t. decrypt_with e d t.0) E
      ∙ decrypt_start e d r.out d_start
      ∙ ap₂ (λ x y. returned d [] (segments e x y (decrypt_segment e x y) (length r.out) 0 b r.out))
          blocks sizes in
    let size : length r.out ≡ length inp =
      (segments-IsRestored e n f (kc.size) (kc.some_bytes) (kc.segment) (length inp) (length inp) 0
        a b inp (omega arith) (omega arith) same).size in
    let R =
      segments-IsRestored e n f (kc.size) (kc.some_bytes) (kc.segment) (length inp) (length r.out) 0
        a b inp (omega arith) (omega arith) same in
    (
      through_keyed encrypt_with e c inp (kc.keyed),
      through_keyed decrypt_with e d _ (kd.keyed),
      ap (λ t. t.0) D ∙ R.message,
      ap (λ t. length t.0) E ∙ R.size,
      ap (λ t. t.1.prev) D ∙ R.fed_back ∙ sym (ap (λ t. t.1.prev) E),
      ap (λ t. t.1.boff) D ∙ R.offset ∙ sym (ap (λ t. t.1.boff) E),
    )

-- The head of a message that ends within the segment.
whole_head :
    (c : Cfb) (inp : List ℕ)
    → c.boff + length inp < c.feedback
    → c.feedback ≤ 32
    → head_size c inp ≡ length inp
unfolding head_size sub_word
whole_head c inp h l = omega arith

-- Nothing is left for the loop.
nothing_left :
    (e : BlockCipher) (n f o : ℕ) (segment : ℕ → Feedback → List ℕ → List ℕ × Feedback)
    (s : Feedback) (inp : List ℕ)
    → inp ≡ []
    → (segments e n f segment (length inp) o s inp).boff ≡ o
unfolding segments finish
nothing_left e n f o segment s inp h = rw h refl

next_offset :
    (o b f : ℕ) → o + b < f → f ≤ 32 → (if add_word 64 o b == f then 0 else add_word 64 o b) ≡ o + b
unfolding add_word
next_offset o b f h l =
    let next : (o + b) % 2 ^ 64 ≡ o + b = omega arith in
    let part : (o + b == f) ≡ false = ground arith in rw (next, part) refl

encrypt-boff :
    (e : BlockCipher) (c : Cfb) (inp : List ℕ)
    → 0 < c.boff
    → c.boff + length inp < c.feedback
    → c.feedback ≤ 32
    → (encrypt_with e c inp).1.boff ≡ c.boff + length inp
unfolding encrypt_with returned
encrypt-boff e c inp begun h l =
    let go : (c.boff == 0) ≡ false = ground arith in
    let head = whole_head c inp h l in
    rw go (
      nothing_left e c.blksize c.feedback _ (encrypt_segment e c.blksize c.feedback) _
        (drop (head_size c inp) inp) (drop-whole (head_size c inp) inp (omega arith))
      ∙ ap (λ b. if add_word 64 c.boff b == c.feedback then 0 else add_word 64 c.boff b) head
      ∙ next_offset c.boff (length inp) c.feedback h l)

decrypt-boff :
    (e : BlockCipher) (c : Cfb) (inp : List ℕ)
    → 0 < c.boff
    → c.boff + length inp < c.feedback
    → c.feedback ≤ 32
    → (decrypt_with e c inp).1.boff ≡ sub_word 64 c.boff (length inp)
unfolding decrypt_with returned
decrypt-boff e c inp begun h l =
    let go : (c.boff == 0) ≡ false = ground arith in
    let head = whole_head c inp h l in
    rw go (
      nothing_left e c.blksize c.feedback _ (decrypt_segment e c.blksize c.feedback) _
        (drop (head_size c inp) inp) (drop-whole (head_size c inp) inp (omega arith))
      ∙ ap (sub_word 64 c.boff) head)

apart : (o b : ℕ) → 0 < b → o + b < 32 → sub_word 64 o b ≢ o + b
unfolding sub_word
apart o b h l = λ q. absurd (omega (arith, q))

-- A piece within a segment that is begun moves the offset of `cfb_encrypt` forward by its length; the
-- offset that `cfb_decrypt` leaves is another, so that the two no longer agree on the next piece.
pub cfb_decrypt_rewinds :
    (e : BlockCipher) (c d : Cfb) (xs ys : List ℕ)
    → c.feedback ≤ 32
    → d.feedback ≡ c.feedback
    → d.boff ≡ c.boff
    → 0 < c.boff
    → length ys ≡ length xs
    → 0 < length xs
    → c.boff + length xs < c.feedback
    → ((encrypt_with e c xs).1.boff ≡ c.boff + length xs)
      × ((decrypt_with e d ys).1.boff ≢ c.boff + length xs)
cfb_decrypt_rewinds e c d xs ys small sizes same begun lens more inside =
    let D =
      decrypt-boff e d ys (omega arith) (omega arith) (omega arith) ∙ ap₂ (sub_word 64) same lens in
    (
      encrypt-boff e c xs begun inside small,
      λ q. apart c.boff (length xs) more (omega arith) (sym D ∙ q),
    )
